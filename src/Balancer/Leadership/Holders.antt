-- ===== src/Balancer/Leadership/Holders.antt =====
-- Which balancer holds the virtual addresses, after changes of the leader.
use fusis.Prelude.{
  String, ◌≡◌, refl, sym, ap, ◌∙◌, Bool, true, false, ◌&&◌, Option, none, List, [], ◌∷◌, ◌++◌, map,
  All,
}
use fusis.Types.{Error, ok, returned}
use fusis.Ipvs.State.{FusisState, get_services}
use fusis.Net.{Netlink, del_each, del_vips, get_vips, get_fusis_vips_ips}
use fusis.Provider.None.{host_of}
use fusis.Provider.None.Converges.{WorkingInterface, on_interface, sync_vips-converges}
use fusis.Balancer.Leadership.{flush_vips, set_vips, leader_changed, watch_leader_changes}

-- An interface that can be flushed: its link is found, it has an address of its own, which is listed
-- first, and deleting the first of the others succeeds and leaves the rest.
pub record FlushableInterface (netlink : Netlink) (iface : String) : Type 0 where
  pub link : netlink.Link
  pub own : netlink.Host → netlink.Addr
  pub others : netlink.Host → List netlink.Addr
  pub has_link : (h : netlink.Host) → netlink.link_by_name iface h ≡ ok link
  pub lists : (h : netlink.Host) → netlink.addr_list link h ≡ ok (own h ∷ others h)
  pub deletes :
      (a : netlink.Addr) (rest : List netlink.Addr) (h : netlink.Host)
      → others h ≡ a ∷ rest
      → ((netlink.addr_del link a h).1 ≡ none) × (others (netlink.addr_del link a h).0 ≡ rest)

module _ (netlink : Netlink) (iface : String) (flushable : FlushableInterface netlink iface) where
  open netlink use {Host, Addr, addr_del}
  open flushable use {link, own, others, has_link, lists, deletes}

  del_each-others :
      (addrs : List Addr) (h : Host)
      → others h ≡ addrs
      → ((del_each netlink link addrs h).1 ≡ none) × (others (del_each netlink link addrs h).0 ≡ [])
  unfolding del_each
  del_each-others [] h e = (refl, e)
  del_each-others (a ∷ addrs) h e =
      let (fine, left) = deletes a addrs h e in
      rw (fine, del_each) (del_each-others addrs (addr_del link a h).0 left)

  -- On such an interface `DelVips` returns with no error, and only the interface's own address is left.
  pub del_vips-others :
      (h : Host) → (h' : Host) × (del_vips netlink iface h ≡ returned (h', none)) × (others h' ≡ [])
  unfolding del_vips
  del_vips-others h =
      let (fine, left) = del_each-others (others h) h refl in
      (
        (del_each netlink link (others h) h).0,
        rw (has_link h, del_vips)
            (rw (lists h, del_vips)
              (ap (λ (e : Option Error). returned ((del_each netlink link (others h) h).0, e))
                fine)),
        left,
      )

module _ (netlink : Netlink) (iface : String) (flushable : FlushableInterface netlink iface)
    (IsAddress : String → Type 0) (working : WorkingInterface netlink iface IsAddress) where
  open netlink use {Host, ip_string}
  open flushable use {others, has_link, lists}
  open working use {vips, can_read}

  vips-others : (h : Host) → vips h ≡ map ip_string (others h)
  unfolding get_fusis_vips_ips
  vips-others h = ok_inj (sym (can_read h) ∙ shown)
    where
      ok_inj : {a b : List String} → returned (ok a) ≡ returned (ok b) → a ≡ b
      ok_inj e = cc

      shown : get_fusis_vips_ips netlink iface h ≡ returned (ok (map ip_string (others h)))
      shown = rw (has_link h, get_vips) (rw (lists h) refl)

  flush_vips-none :
      (h : Host) → (h' : Host) × (flush_vips netlink iface h ≡ returned h') × (vips h' ≡ [])
  unfolding flush_vips
  flush_vips-none h =
      let (h', done, left) = del_vips-others netlink iface flushable h in
      (h', rw done refl, vips-others h' ∙ ap (map ip_string) left)

  abbrev IsServed : FusisState → Type 0
  IsServed s = All IsAddress (map host_of (get_services s))

  leader_changed-holds :
      (leader : Bool) (s : FusisState) (h : Host)
      → IsServed s
      → (h' : Host) × (leader_changed netlink leader iface s h ≡ returned h')
        × ((k : String)
            → on_interface k (vips h') ≡ (leader && on_interface k (map host_of (get_services s))))
  unfolding leader_changed set_vips
  leader_changed-holds false s h valid =
      let (h', done, left) = flush_vips-none h in (h', done, λ k. rw left refl)
  leader_changed-holds true s h valid =
      let (h1, flushed, left) = flush_vips-none h in
      let (h2, synced, holds) = sync_vips-converges netlink iface IsAddress working s h1 valid in
      (h2, rw (flushed, leader_changed) (rw synced refl), holds)

  abbrev AllServed : List (Bool × FusisState) → Type 0
  AllServed = All (λ change. IsServed change.1)

  -- On an interface that works and can be flushed, and if the hosts of the services are valid addresses
  -- at each change, the loop over any changes of the leader goes through, and the last change decides:
  -- a balancer that became the leader then has exactly the hosts of the services of that time on its
  -- interface, and one that ceased to be the leader has none.
  pub watch_leader_changes-holds :
      (changes : List (Bool × FusisState)) (leader : Bool) (s : FusisState) (h : Host)
      → AllServed changes
      → IsServed s
      → (h' : Host) × (watch_leader_changes netlink (changes ++ (leader, s) ∷ []) iface h
          ≡ returned h')
        × ((k : String)
            → on_interface k (vips h') ≡ (leader && on_interface k (map host_of (get_services s))))
  unfolding watch_leader_changes
  watch_leader_changes-holds [] leader s h all served =
      let (h', done, holds) = leader_changed-holds leader s h served in
      (h', rw (done, watch_leader_changes) refl, holds)
  watch_leader_changes-holds ((first, t) ∷ changes) leader s h all served =
      let (h1, done, _) = leader_changed-holds first t h all.0 in
      let (h', rest, holds) = watch_leader_changes-holds changes leader s h1 all.1 served in
      (h', rw (done, watch_leader_changes) rest, holds)
