-- ===== src/Provider/None.antt =====
-- provider/none.go and provider/provider.go: the provider that puts the virtual addresses on an
-- interface of the leader, and the choice of a provider by the configuration.
pub mod Converges
use fusis.Prelude.{ℕ, String, ◌==◌, Option, none, some, List, [], ◌∷◌, ◌++◌, map, if◌then◌else◌}
use fusis.Prelude.Text.{concat, join}
use fusis.GoMap.{lookup, values}
use fusis.Types.{Error, Result, ok, err, other, error_text, Outcome, returned, panicked}
use fusis.Types.Service.{Service}
use fusis.Ipvs.State.{FusisState, get_services, get_or}
use fusis.Config.{BalancerConfig}
use fusis.Net.{Netlink, add_ip, del_ip, get_fusis_vips_ips}
use fusis.Provider.Ipam.{Ranges, new_ipam, allocate, release}
use fusis.Diff.{Plan, diff}

abbrev pub host_of : Service → String
host_of s = s.host

abbrev pub itself : String → String
itself ip = ip

-- `ip+"/32"`
unfoldable pub cidr : String → String
cidr ip = concat (ip ∷ "/32" ∷ [])

-- The two loops of `SyncVIPs` over the addresses to add and to delete collect the errors.
unfoldable pub vip_error : String → String → Error → String
vip_error doing ip e = concat ("error " ∷ doing ∷ " ip " ∷ ip ∷ ": " ∷ error_text e ∷ [])

abbrev pub noted : List String → String → String → Option Error → List String
noted errors doing ip none = errors
noted errors doing ip (some e) = errors ++ vip_error doing ip e ∷ []

-- `fmt.Errorf("multiple errors: %s", strings.Join(errors, " | "))`, if there is any.
unfoldable pub multiple_errors : List String → Option Error
multiple_errors [] = none
multiple_errors (e ∷ es) = some (other (concat ("multiple errors: " ∷ join " | " (e ∷ es) ∷ [])))

module _ (netlink : Netlink) (iface : String) where
  open netlink use {Host}

  unfoldable pub add_vips : List String → Host → List String → Host × List String
  add_vips [] h errors = (h, errors)
  add_vips (ip ∷ ips) h errors =
      let (h', failure) = add_ip netlink (cidr ip) iface h in
      add_vips ips h' (noted errors "adding" ip failure)

  unfoldable pub remove_vips : List String → Host → List String → Host × List String
  remove_vips [] h errors = (h, errors)
  remove_vips (ip ∷ ips) h errors =
      let (h', failure) = del_ip netlink (cidr ip) iface h in
      remove_vips ips h' (noted errors "deleting" ip failure)

  abbrev carry_out : Plan String String → Host → Host × Option Error
  carry_out plan h =
      let (h', errors) = add_vips (values plan.to_add) h [] in
      let (h'', errors') = remove_vips plan.to_remove h' errors in (h'', multiple_errors errors')

  -- The plan of `SyncVIPs`: the addresses of the services against those of the interface.
  unfoldable pub vips_plan : List String → FusisState → Plan String String
  vips_plan old_vips s = diff itself itself old_vips (map host_of (get_services s))

  unfoldable pub sync_from :
      Outcome (Result (List String)) → FusisState → Host → Outcome (Host × Option Error)
  sync_from panicked s h = panicked
  sync_from (returned (err e)) s h = returned (h, some e)
  sync_from (returned (ok old_vips)) s h = returned (carry_out (vips_plan old_vips s) h)

  unfoldable pub sync_vips : FusisState → Host → Outcome (Host × Option Error)
  unfolding sync_from vips_plan
  sync_vips s h = sync_from (get_fusis_vips_ips netlink iface h) s h

module _ (ranges : Ranges) where
  open ranges use {Cursor}

  -- The record `None`; the pointer to the `Ipam` is its cursor.
  pub record NoneProvider : Type 0 where
    pub iface : String
    pub ipam : Cursor

  unfoldable pub new_none : BalancerConfig → Result NoneProvider
  new_none c = elim (new_ipam ranges (get_or "" (lookup "vipRange" c.provider.params))) [
    | err e ↦ err e
    | ok i ↦ ok (record { iface = get_or "" (lookup "interface" c.provider.params); ipam = i })
  ]

  -- `provider.New`: nil with no error for a type that is not "none".
  unfoldable pub new_provider : BalancerConfig → Result (Option NoneProvider)
  unfolding new_none
  new_provider c =
      if c.provider.type == "none"
      then elim (new_none c) [ err e ↦ err e | ok p ↦ ok (some p) ]
      else ok none

  unfoldable pub set_host :
      Service
      → NoneProvider
      → Option (Cursor × Result String)
      → Option (NoneProvider × Result Service)
  set_host svc p none = none
  set_host svc p (some (c, err e)) = some (record p { ipam = c }, err e)
  set_host svc p (some (c, ok ip)) = some (record p { ipam = c }, ok (record svc { host = ip }))

  -- `AllocateVIP` writes the address into the service, or returns the error and leaves it alone.
  unfoldable pub allocate_vip :
      ℕ → Service → FusisState → NoneProvider → Option (NoneProvider × Result Service)
  unfolding set_host
  allocate_vip fuel svc s p = set_host svc p (allocate ranges fuel s p.ipam)

  unfoldable pub release_vip : Service → NoneProvider → NoneProvider × Option Error
  release_vip svc p = (record p { ipam = release ranges svc.host p.ipam }, none)
