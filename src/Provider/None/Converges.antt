-- ===== src/Provider/None/Converges.antt =====
-- `SyncVIPs` leaves exactly the addresses of the services on the interface.
use fusis.Prelude.{
  String, ◌≡◌, refl, ap, ◌∙◌, ◌==◌, eq_iff, List, [], ◌∷◌, map, Option, none, Bool, true, false,
  not, ◌&&◌, ◌||◌, All, arith, if◌then◌else◌,
}
use fusis.GoMap.{values}
use fusis.Types.{Error, ok, returned}
use fusis.Ipvs.State.{FusisState, get_services}
use fusis.Net.{Netlink, add_ip, del_ip, get_fusis_vips_ips}
use fusis.Diff.{diff}
use fusis.Diff.Laws.{mentions, HasDistinctKeys, diff-partition}
use fusis.Diff.Parts.{added-HasDistinctKeys, added-All, deleted-HasDistinctKeys}
use fusis.Provider.None.{
  host_of, itself, cidr, noted, multiple_errors, add_vips, remove_vips, carry_out, vips_plan,
  sync_vips,
}

abbrev pub on_interface : String → List String → Bool
on_interface = mentions itself

-- What `SyncVIPs` relies on: on a working interface the address list can be read, adding a valid
-- address that is not on it succeeds and adds just that one, and deleting one that is on it
-- succeeds and takes just that one away.
pub record WorkingInterface (netlink : Netlink) (iface : String) (IsAddress : String → Type 0)
    : Type 0 where
  pub vips : netlink.Host → List String
  pub can_read : (h : netlink.Host) → get_fusis_vips_ips netlink iface h ≡ returned (ok (vips h))
  pub no_doubles : (h : netlink.Host) → HasDistinctKeys itself (vips h)
  pub can_add :
      (ip : String) (h : netlink.Host)
      → IsAddress ip
      → on_interface ip (vips h) ≡ false
      → (add_ip netlink (cidr ip) iface h).1 ≡ none
  pub added :
      (ip k : String) (h : netlink.Host)
      → IsAddress ip
      → on_interface ip (vips h) ≡ false
      → on_interface k (vips (add_ip netlink (cidr ip) iface h).0)
        ≡ (if ip == k then true else on_interface k (vips h))
  pub can_delete :
      (ip : String) (h : netlink.Host)
      → on_interface ip (vips h) ≡ true
      → (del_ip netlink (cidr ip) iface h).1 ≡ none
  pub deleted :
      (ip k : String) (h : netlink.Host)
      → on_interface ip (vips h) ≡ true
      → on_interface k (vips (del_ip netlink (cidr ip) iface h).0)
        ≡ (if ip == k then false else on_interface k (vips h))

module _ (netlink : Netlink) (iface : String) (IsAddress : String → Type 0)
    (working : WorkingInterface netlink iface IsAddress) where
  open netlink use {Host}
  open working use {vips, can_read, no_doubles, can_add, added, can_delete, deleted}

  add_vips-adds :
      (ips : List String) (h : Host) (errors : List String)
      → All IsAddress ips
      → HasDistinctKeys itself ips
      → ((k : String) → on_interface k ips ≡ true → on_interface k (vips h) ≡ false)
      → ((add_vips netlink iface ips h errors).1 ≡ errors)
        × ((k : String)
            → on_interface k (vips (add_vips netlink iface ips h errors).0)
              ≡ (on_interface k ips || on_interface k (vips h)))
  unfolding add_vips
  add_vips-adds [] h errors valid distinct absent = (refl, λ k. refl)
  add_vips-adds (ip ∷ ips) h errors valid distinct absent =
      let free = absent ip (ground (arith, eq_iff ip ip)) in
      let fine = can_add ip h valid.0 free in
      let (clean, holds) =
        add_vips-adds ips (add_ip netlink (cidr ip) iface h).0
          (noted errors "adding" ip (add_ip netlink (cidr ip) iface h).1) valid.1 distinct.1
          (λ k m. ground (arith, added ip k h valid.0 free, absent k, eq_iff ip k, distinct.0)) in
      (
        clean ∙ ap (noted errors "adding" ip) fine,
        λ k. holds k ∙ ground (arith, added ip k h valid.0 free, eq_iff ip k),
      )

  remove_vips-removes :
      (ips : List String) (h : Host) (errors : List String)
      → HasDistinctKeys itself ips
      → ((k : String) → on_interface k ips ≡ true → on_interface k (vips h) ≡ true)
      → ((remove_vips netlink iface ips h errors).1 ≡ errors)
        × ((k : String)
            → on_interface k (vips (remove_vips netlink iface ips h errors).0)
              ≡ (not (on_interface k ips) && on_interface k (vips h)))
  unfolding remove_vips
  remove_vips-removes [] h errors distinct present = (refl, λ k. refl)
  remove_vips-removes (ip ∷ ips) h errors distinct present =
      let there = present ip (ground (arith, eq_iff ip ip)) in
      let fine = can_delete ip h there in
      let (clean, holds) =
        remove_vips-removes ips (del_ip netlink (cidr ip) iface h).0
          (noted errors "deleting" ip (del_ip netlink (cidr ip) iface h).1) distinct.1
          (λ k m. ground (arith, deleted ip k h there, present k, eq_iff ip k, distinct.0)) in
      (
        clean ∙ ap (noted errors "deleting" ip) fine,
        λ k. holds k ∙ ground (arith, deleted ip k h there, eq_iff ip k),
      )

  carry_out-leaves :
      (s : FusisState) (h : Host)
      → All IsAddress (map host_of (get_services s))
      → ((carry_out netlink iface (vips_plan netlink iface (vips h) s) h).1 ≡ none)
        × ((k : String)
            → on_interface k
                (vips (carry_out netlink iface (vips_plan netlink iface (vips h) s) h).0)
              ≡ on_interface k (map host_of (get_services s)))
  unfolding vips_plan multiple_errors
  carry_out-leaves s h valid =
      let hosts = map host_of (get_services s) in
      let plan = diff itself itself (vips h) hosts in
      let parts = λ (k : String). diff-partition itself itself k (vips h) hosts (no_doubles h) in
      let (added_clean, after_add) =
        add_vips-adds (values plan.to_add) h []
          (added-All itself itself (vips h) hosts IsAddress valid)
          (added-HasDistinctKeys itself itself (vips h) hosts)
          (λ k m. ground (arith, (parts k).0)) in
      let (removed_clean, after_remove) =
        remove_vips-removes plan.to_remove (add_vips netlink iface (values plan.to_add) h []).0
          (add_vips netlink iface (values plan.to_add) h []).1
          (deleted-HasDistinctKeys itself itself (vips h) hosts (no_doubles h))
          (λ k m. after_add k ∙ ground (arith, (parts k).1)) in
      (
        ap multiple_errors (removed_clean ∙ added_clean),
        λ k. after_remove k ∙ ground (arith, after_add k, (parts k).0, (parts k).1),
      )

  -- On a working interface, and if the host of every service is a valid address, `SyncVIPs` returns
  -- with no error, and an address is then on the interface exactly if it is the host of a service.
  pub sync_vips-converges :
      (s : FusisState) (h : Host)
      → All IsAddress (map host_of (get_services s))
      → (h' : Host) × (sync_vips netlink iface s h ≡ returned (h', none))
        × ((k : String) → on_interface k (vips h') ≡ on_interface k (map host_of (get_services s)))
  unfolding sync_vips
  sync_vips-converges s h valid =
      let (clean, leaves) = carry_out-leaves s h valid in
      (
        (carry_out netlink iface (vips_plan netlink iface (vips h) s) h).0,
        rw (can_read h) (
            ap
              (λ (e : Option Error).
                returned ((carry_out netlink iface (vips_plan netlink iface (vips h) s) h).0, e))
              clean),
        leaves,
      )
