-- ===== src/Tests/Interface.antt =====
-- An interface that works: its state is the list of its addresses, each once.

use Prim.Native.String.{◌++◌, count}
use text.Mathlib.TextLemmas.{cons-append, length-append, length-cons}
use Prim.Native.Char.{Char}
use fusis.Prelude.{
  eq_false, String, ◌≡◌, refl, ap, List, [], ◌∷◌, map, none, some, Option, Bool, true, false, arith,
  if◌then◌else◌, ◌==◌, eq_iff, not, select,
}
use fusis.Prelude.Text.{concat}
use fusis.GoMap.{values}
use fusis.Types.{Error, other, ok, returned}
use fusis.Ipvs.State.{get_services, with_destinations}
use fusis.Net.{Netlink, add_ip, del_ip, get_fusis_vips_ips}
use fusis.Diff.Laws.{HasDistinctKeys}
use fusis.Provider.None.{host_of, itself, cidr, sync_vips}
use fusis.Provider.None.Converges.{on_interface, WorkingInterface, sync_vips-converges}
use fusis.Tests.Samples.{saved}

-- The address before the mask "/32".
unfoldable pub strip : String → String
strip String.[] = ""
strip (String.◌∷◌ c s) =
    let rest = String.◌∷◌ c (strip s) in if String.◌∷◌ c s == "/32" then "" else rest

too_long : (c : Char) (s : String) → (String.◌∷◌ c (s ++ "/32") == "/32") ≡ false
too_long c s =
    eq_false _ _
      (λ e. absurd (omega (arith, ap count e, length-cons c (s ++ "/32"), length-append s "/32")))

strip-cidr : (ip : String) → strip (cidr ip) ≡ ip
unfolding cidr concat strip
strip-cidr String.[] = refl
strip-cidr (String.◌∷◌ c s) =
    rw cons-append (rw (too_long c s) (ap (λ (t : String). String.◌∷◌ c t) (strip-cidr s)))

unfoldable pub keep : String → List String → List String
keep ip = select (λ k. not (ip == k))

on_interface-keep :
    (ip k : String) (l : List String)
    → on_interface k (keep ip l) ≡ (if ip == k then false else on_interface k l)
unfolding keep
on_interface-keep ip k [] = ground arith
on_interface-keep ip k (a ∷ l) =
    ground (arith, on_interface-keep ip k l, eq_iff ip k, eq_iff ip a, eq_iff a k)

pub keep-HasDistinctKeys :
    (ip : String) (l : List String) → HasDistinctKeys itself l → HasDistinctKeys itself (keep ip l)
unfolding keep
keep-HasDistinctKeys ip [] h = tt
keep-HasDistinctKeys ip (a ∷ l) h =
    ground (arith, keep-HasDistinctKeys ip l h.1, on_interface-keep ip a l, eq_iff ip a, h.0)

abbrev pub Addresses : Type 0
Addresses = (l : List String) × HasDistinctKeys itself l

abbrev add_unless :
    (ip : String) (h : Addresses) (b : Bool) → on_interface ip h.0 ≡ b → Addresses × Option Error
add_unless ip h true e = (h, some (other "file exists"))
add_unless ip h false e = ((ip ∷ h.0, (e, h.1)), none)

abbrev add_host : String → Addresses → Addresses × Option Error
add_host ip h = add_unless ip h (on_interface ip h.0) refl

abbrev del_host : String → Addresses → Addresses × Option Error
del_host ip h = ((keep ip h.0, keep-HasDistinctKeys ip h.0 h.1), none)

abbrev pub ideal : Netlink
ideal = record {
  Host = Addresses;
  Link = String;
  Addr = String;
  Route = String;
  link_by_name = λ name h. ok name;
  parse_addr = λ text. ok (strip text);
  addr_add = λ link addr h. add_host addr h;
  addr_del = λ link addr h. del_host addr h;
  addr_list = λ link h. ok ("192.168.0.254" ∷ h.0);
  ip_string = λ addr. addr;
  route_to = λ gw. gw;
  route_add = λ route h. (h, none);
  route_del = λ route h. (h, none);
  route_list = λ h. ok [];
  gateway = λ route. some route;
}

map-id : (l : List String) → map (λ (a : String). a) l ≡ l
map-id [] = refl
map-id (a ∷ l) = rw (map-id l)

add_unless-none :
    (ip : String) (h : Addresses) (b : Bool) (e : on_interface ip h.0 ≡ b)
    → on_interface ip h.0 ≡ false
    → (add_unless ip h b e).1 ≡ none
add_unless-none ip h true e absent = cc
add_unless-none ip h false e absent = refl

add_unless-holds :
    (ip k : String) (h : Addresses) (b : Bool) (e : on_interface ip h.0 ≡ b)
    → on_interface ip h.0 ≡ false
    → on_interface k (add_unless ip h b e).0.0 ≡ (if ip == k then true else on_interface k h.0)
add_unless-holds ip k h true e absent = cc
add_unless-holds ip k h false e absent = refl

pub working : WorkingInterface ideal "eth0" (λ ip. Unit {0})
unfolding add_ip del_ip get_fusis_vips_ips
working = record {
  vips = λ h. h.0;
  can_read = λ h. ap (λ (l : List String). returned (ok l)) (map-id h.0);
  no_doubles = λ h. h.1;
  can_add = λ ip h valid absent. rw (strip-cidr ip) (add_unless-none ip h _ refl absent);
  added = λ ip k h valid absent. rw (strip-cidr ip) (add_unless-holds ip k h _ refl absent);
  can_delete = λ ip h present. refl;
  deleted = λ ip k h present. rw (strip-cidr ip) (on_interface-keep ip k h.0);
}

-- "10.0.0.9" is left over, and "10.0.0.1" is there already.
abbrev pub before : Addresses
before = ("10.0.0.9" ∷ "10.0.0.1" ∷ [], (refl, (refl, tt)))

sync_vips-converges_example :
    (h' : Addresses) × (sync_vips ideal "eth0" saved before ≡ returned (h', none))
    × ((k : String) → on_interface k h'.0 ≡ on_interface k (map host_of (get_services saved)))
unfolding get_services with_destinations values working
sync_vips-converges_example =
    sync_vips-converges ideal "eth0" (λ ip. Unit {0}) working saved before (tt, (tt, tt))
