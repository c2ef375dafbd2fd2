-- ===== src/Tests/Served.antt =====
-- A balancer and its machine: a table with a stranger and a stray destination, and an interface.
use fusis.Prelude.{
  String, ◌≡◌, refl, [], ◌∷◌, map, none, some, true, false, inl, inr, eq_iff, arith,
}
use fusis.GoMap.{values}
use fusis.Types.{returned}
use fusis.Ipvs.State.{FusisState, new_fusis_state, get_services, with_destinations}
use fusis.Ipvs.Structs.{string_to_ip_proto}
use fusis.Provider.None.{host_of, remove_vips, add_vips, cidr}
use fusis.Provider.None.Converges.{on_interface}
use fusis.Balancer.{Platform, Node, Machine, handle_state_change, add_service}
use fusis.Balancer.Exact.{CanServe, IsInLine, handle_state_change-exact}
use fusis.Balancer.Reach.{Reach, start, step, service_added}
use fusis.Balancer.Reach.Served.{IsReady, reached-served}
use fusis.Tests.Samples.{saved, texts}
use fusis.Tests.Provider.{small_range}
use fusis.Tests.Interface
use fusis.Tests.Interface.{ideal, working, strip, keep}
use fusis.Net.{add_ip}
use fusis.Tests.Balancer
use fusis.Tests.Balancer.{mail, first_mail, only_mail}
use fusis.Tests.Exact.{messy, saved-HasDistinctKeys}
use fusis.Tests.Keyed.{Keyed}
use fusis.Tests.Whole.{Box, box_key, whole_kernel}
use fusis.Tests.Whole.Laws.{IsNamed, IsAny, working_boxes}
use fusis.Tests.Whole.Serving.{whole_boxes}

abbrev pub platform : Platform
platform = record { network = texts; kernel = whole_kernel; netlink = ideal; ranges = small_range }

abbrev pub machine : Machine platform
machine = record { host = Interface.before; table = messy }

abbrev pub IsServable : FusisState → Type 0
IsServable =
    CanServe platform "eth0" (λ ip. Unit {0}) working IsNamed IsAny working_boxes whole_boxes

saved-IsServable : IsServable saved
unfolding get_services with_destinations values
saved-IsServable = record {
  addresses = (tt, (tt, tt));
  services = (inl refl, (inr refl, tt));
  destinations = ((tt, tt), (tt, tt));
}

handle_state_change-exact_example :
    (m : Machine platform) × (handle_state_change platform true "eth0" saved machine
      ≡ returned (m, none))
    × IsInLine platform "eth0"
        (λ ip. Unit {0})
        working
        IsNamed
        IsAny
        working_boxes
        whole_boxes
        saved
        m
    × ((k : String)
        → on_interface k (working.vips m.host) ≡ on_interface k (map host_of (get_services saved)))
handle_state_change-exact_example =
    handle_state_change-exact platform "eth0" (λ ip. Unit {0}) working IsNamed IsAny working_boxes
      whole_boxes true saved machine saved-IsServable saved-HasDistinctKeys

abbrev node : FusisState → Interface.Addresses → Keyed box_key → Node platform
node s h t = record {
  state = s;
  provider = record { iface = "eth0"; ipam = "10.0.0.1" ∷ "10.0.0.2" ∷ "10.0.0.3" ∷ [] };
  machine = record { host = h; table = t };
  leader = true;
}

abbrev mail_box : Box
mail_box = record { host = "10.0.0.1"; port = 25; udp = false; spots = ([], tt) }

added_first :
    add_service platform 4 none mail (node new_fusis_state ([], tt) ([], tt))
    ≡ some (
        returned (
          node only_mail ("10.0.0.1" ∷ [], (refl, tt)) (mail_box ∷ [], (refl, tt)),
          first_mail,
          none,
        ))
unfolding Balancer.run string_to_ip_proto remove_vips add_vips add_ip strip keep cidr
added_first = refl

calls :
    Reach
      (node new_fusis_state ([], tt) ([], tt))
      (node only_mail ("10.0.0.1" ∷ [], (refl, tt)) (mail_box ∷ [], (refl, tt)))
calls = step start (service_added 4 none mail first_mail none added_first)

only_mail-IsServable : IsServable only_mail
unfolding get_services with_destinations values
only_mail-IsServable = record {
  addresses = (tt, tt);
  services = (inl refl, tt);
  destinations = (tt, tt);
}

only_mail-IsReady : IsReady first_mail
only_mail-IsReady = record {
  named = ground (arith, eq_iff "mail" "");
  addressed = ground (arith, eq_iff "10.0.0.1" "");
  protocol_plain = omega arith;
}

reached-served_example :
    (m : Machine platform) × (handle_state_change platform true "eth0" only_mail machine
      ≡ returned (m, none))
    × IsInLine platform "eth0"
        (λ ip. Unit {0})
        working
        IsNamed
        IsAny
        working_boxes
        whole_boxes
        only_mail
        m
    × ((k : String)
        → on_interface k (working.vips m.host)
          ≡ on_interface k (map host_of (get_services only_mail)))
unfolding get_services with_destinations values
reached-served_example =
    reached-served platform "eth0" (λ ip. Unit {0}) working IsNamed IsAny working_boxes whole_boxes
      (node new_fusis_state ([], tt) ([], tt))
      (node only_mail ("10.0.0.1" ∷ [], (refl, tt)) (mail_box ∷ [], (refl, tt))) machine refl calls
      (only_mail-IsReady, tt) only_mail-IsServable
