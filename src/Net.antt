-- ===== src/Net.antt =====
-- net/net.go: the addresses of an interface, through the package `netlink`. The slices `addrs[1:]`
-- and `addrs[0]` panic on an interface with no address.
use fusis.Prelude.{String, Option, none, some, List, [], ◌∷◌, map}
use fusis.Types.{Error, Result, ok, err, other, Outcome, returned, panicked}

-- What `netlink` and the kernel behind it provide: `Host` is the state of the network, `Route` an
-- entry of the routing table and `gateway` its `Gw`, which may be nil.
pub record Netlink : Type 1 where
  pub Host : Type 0
  pub Link : Type 0
  pub Addr : Type 0
  pub Route : Type 0
  pub link_by_name : String → Host → Result Link
  pub parse_addr : String → Result Addr
  pub addr_add : Link → Addr → Host → Host × Option Error
  pub addr_del : Link → Addr → Host → Host × Option Error
  pub addr_list : Link → Host → Result (List Addr)
  pub ip_string : Addr → String
  pub route_to : String → Route
  pub route_add : Route → Host → Host × Option Error
  pub route_del : Route → Host → Host × Option Error
  pub route_list : Host → Result (List Route)
  pub gateway : Route → Option Addr

module _ (netlink : Netlink) where
  open netlink use {
    Host, Link, Addr, Route, link_by_name, parse_addr, addr_add, addr_del, addr_list, ip_string,
    route_to, route_add, route_del, route_list, gateway,
  }

  -- The body that `AddIp` and `DelIp` share, with the call at its end.
  abbrev with_addr :
      (Link → Addr → Host → Host × Option Error) → String → String → Host → Host × Option Error
  with_addr change ip iface h = elim (link_by_name iface h) [
    | err e ↦ (h, some e)
    | ok link ↦ elim (parse_addr ip) [ err e ↦ (h, some e) | ok addr ↦ change link addr h ]
  ]

  unfoldable pub add_ip : String → String → Host → Host × Option Error
  add_ip = with_addr addr_add

  unfoldable pub del_ip : String → String → Host → Host × Option Error
  del_ip = with_addr addr_del

  -- The loop of `DelVips`: it stops at the first error.
  unfoldable pub del_each : Link → List Addr → Host → Host × Option Error
  del_each link [] h = (h, none)
  del_each link (a ∷ addrs) h =
      let (h', failure) = addr_del link a h in
      elim failure [ none ↦ del_each link addrs h' | some e ↦ (h', some e) ]

  unfoldable pub del_vips : String → Host → Outcome (Host × Option Error)
  unfolding del_each
  del_vips iface h = elim (link_by_name iface h) [
    | err e ↦ returned (h, some e)
    | ok link ↦ elim (addr_list link h) [
      | err e ↦ returned (h, some e)
      | ok [] ↦ panicked
      | ok (a ∷ addrs) ↦ returned (del_each link addrs h)
    ]
  ]

  unfoldable pub get_vips : String → Host → Result (List Addr)
  get_vips iface h = elim (link_by_name iface h) [ err e ↦ err e | ok link ↦ addr_list link h ]

  abbrev vips_ips : Result (List Addr) → Outcome (Result (List String))
  vips_ips (err e) = returned (err e)
  vips_ips (ok []) = panicked
  vips_ips (ok (a ∷ addrs)) = returned (ok (map ip_string addrs))

  unfoldable pub get_fusis_vips_ips : String → Host → Outcome (Result (List String))
  unfolding get_vips
  get_fusis_vips_ips iface h = vips_ips (get_vips iface h)

  abbrev first_ip : Result (List Addr) → Outcome (Result String)
  first_ip (err e) = returned (err e)
  first_ip (ok []) = panicked
  first_ip (ok (a ∷ addrs)) = returned (ok (ip_string a))

  unfoldable pub get_ip_by_interface : String → Host → Outcome (Result String)
  get_ip_by_interface iface h = elim (link_by_name iface h) [
    | err e ↦ returned (err e)
    | ok link ↦ first_ip (addr_list link h)
  ]

  unfoldable pub add_default_gateway : String → Host → Host × Option Error
  add_default_gateway ip h = route_add (route_to ip) h

  -- The loop of `GetDefaultGateway` keeps the last route that has a gateway.
  unfoldable pub last_gateway : Option Route → List Route → Option Route
  last_gateway route [] = route
  last_gateway route (v ∷ vs) =
      last_gateway (elim (gateway v) [ none ↦ route | some gw ↦ some v ]) vs

  abbrev or_not_found : Option Route → Result Route
  or_not_found none = err (other "default gateway not found")
  or_not_found (some route) = ok route

  unfoldable pub get_default_gateway : Host → Result Route
  unfolding last_gateway
  get_default_gateway h = elim (route_list h) [
    | err e ↦ err e
    | ok routes ↦ or_not_found (last_gateway none routes)
  ]

  unfoldable pub delete_default_gateway : Route → Host → Host × Option Error
  delete_default_gateway route h = route_del route h
