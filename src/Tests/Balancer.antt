-- ===== src/Tests/Balancer.antt =====
-- The operations of a balancer on a small platform.
use fusis.Prelude.{ℕ, ◌+◌, ◌*◌, String, ◌≡◌, ◌≢◌, refl, [], ◌∷◌, none, some, true, arith}
use fusis.Prelude.Text.{concat, decimal}
use fusis.GoMap.{lookup, values, insert, delete}
use fusis.Types.{service_not_found, destination_already_exists, other, ok, err, returned}
use fusis.Types.Service
use fusis.Types.Service.{Service}
use fusis.Types.Destination.{Destination, DestinationStats}
use fusis.Ipvs.State
use fusis.Ipvs.State.{FusisState, new_fusis_state, with_destinations}
use fusis.Ipvs.Structs.{to_ipvs_service, from_service}
use fusis.Ipvs.Structs.Trip.{measured_service, service_trip}
use fusis.Ipvs.Sync.{
  Kernel, sync_state, from_services, carry_out, each_service, merge_services, multiple_errors,
}
use fusis.Diff.{diff, index, scan}
use fusis.Provider.Ipam.{allocate, at_position, if_assigned, ip_is_assigned, has_host}
use fusis.Provider.None.{allocate_vip, set_host, release_vip, sync_vips}
use fusis.Engine
use fusis.Engine.{Command}
use fusis.Balancer.{
  Platform, Node, apply_to_raft, handle_state_change, sync_table, add_if_new, released, with_vip,
  delete_found, add_to_service, add_if_unnamed, add_if_free, has_address, add_service,
  delete_service, add_destination, delete_destination,
}
use fusis.Balancer.Services
use fusis.Balancer.Services.{add_service-Adding, add_service-get_service, add_service_hosts}
use fusis.Balancer.Deletion.{delete_service-get, delete_service_orphans}
use fusis.Balancer.Destinations
use fusis.Balancer.Destinations.{
  HasDistinctAddresses, add_destination-Adding, add_destination-HasDistinctAddresses,
}
use fusis.Tests.Samples.{web, dns, one, saved, saved-IsKeyed, no_counts, texts}
use fusis.Tests.Provider.{small_range}
use fusis.Net.{Netlink, get_fusis_vips_ips, get_vips}

-- A kernel whose table stays empty.
abbrev pub quiet : Kernel texts
quiet = record {
  Table = Unit;
  init = λ t. (t, none);
  flush = λ t. (t, none);
  list_services = λ t. ok [];
  add_service = λ s t. (t, none);
  delete_service = λ s t. (t, none);
  update_service = λ s t. (t, none);
  add_destination = λ s d t. (t, none);
  delete_destination = λ s d t. (t, none);
  update_destination = λ s d t. (t, none);
  show_service = λ s. s.name;
  show_destination = λ d. d.name;
}

-- A host that has no interface, so that the leader's SyncVIPs does nothing.
abbrev pub bare : Netlink
bare = record {
  Host = Unit;
  Link = String;
  Addr = String;
  Route = String;
  link_by_name = λ name h. err (other "Link not found");
  parse_addr = λ text. ok text;
  addr_add = λ link addr h. (h, none);
  addr_del = λ link addr h. (h, none);
  addr_list = λ link h. ok [];
  ip_string = λ addr. addr;
  route_to = λ gw. gw;
  route_add = λ route h. (h, none);
  route_del = λ route h. (h, none);
  route_list = λ h. ok [];
  gateway = λ route. some route;
}

abbrev pub small : Platform
small = record { network = texts; kernel = quiet; netlink = bare; ranges = small_range }

abbrev pub node : FusisState → Node small
node s = record {
  state = s;
  provider = record { iface = "eth0"; ipam = "10.0.0.1" ∷ "10.0.0.2" ∷ "10.0.0.3" ∷ [] };
  machine = record { host = tt; table = tt };
  leader = true;
}

abbrev pub mail : Service
mail = record web { name = "mail"; host = ""; port = 25 }

abbrev given : Service
given = record mail { host = "10.0.0.3" }

abbrev three : FusisState
three = record saved { services = ("web", web) ∷ ("dns", dns) ∷ ("mail", given) ∷ [] }

-- What a run on the small platform computes with.
unfoldable pub run : Unit {0}
unfolding add_service add_if_new released with_vip delete_service delete_found add_destination
    add_to_service add_if_unnamed add_if_free has_address apply_to_raft handle_state_change
    sync_table sync_vips get_fusis_vips_ips get_vips Engine.apply Engine.apply_command
    Engine.dispatch State.add_service State.get_service State.get_destination State.delete_service
    State.add_destination State.get_services with_destinations lookup insert delete values
    allocate_vip set_host release_vip allocate at_position if_assigned ip_is_assigned has_host
    sync_state from_services carry_out each_service merge_services diff index scan multiple_errors
    concat Service.kernel_key decimal to_ipvs_service
run = tt

added_mail : add_service small 4 none mail (node saved) ≡ some (returned (node three, given, none))
unfolding run
added_mail = refl

add_service-Adding_example : Services.Adding none mail (node saved) (node three) given none
add_service-Adding_example = add_service-Adding small none mail (node saved) 4 added_mail

abbrev pub first_mail : Service
first_mail = record mail { host = "10.0.0.1" }

abbrev pub only_mail : FusisState
only_mail = record { services = ("mail", first_mail) ∷ []; destinations = [] }

pub added_first :
    add_service small 4 none mail (node new_fusis_state)
    ≡ some (returned (node only_mail, first_mail, none))
unfolding run
added_first = refl

abbrev without_web : FusisState
without_web = record saved { services = ("dns", dns) ∷ [] }

deleted_web : delete_service small none "web" (node saved) ≡ returned (node without_web, none)
unfolding run
deleted_web = refl

delete_service-get_example :
    (State.get_service "web" without_web ≡ err service_not_found)
    × ((k : String) → "web" ≢ k → State.get_service k without_web ≡ State.get_service k saved)
    × ((k : String) → State.get_destination k without_web ≡ State.get_destination k saved)
delete_service-get_example =
    delete_service-get small none "web" (node saved) saved-IsKeyed deleted_web

one_there : State.get_destination "one" saved ≡ ok one
unfolding run
one_there = refl

delete_service_orphans_example :
    (State.get_destination "one" without_web ≡ ok one)
    × (delete_destination small none one (node without_web)
        ≡ returned (node without_web, some service_not_found))
    × ((svc found : Service) (new : Destination)
        → State.get_service svc.name without_web ≡ ok found
        → ◌≡◌ {A = String} new.name "one"
        → add_destination small none svc new (node without_web)
          ≡ returned (node without_web, some destination_already_exists))
delete_service_orphans_example =
    delete_service_orphans small none none "web" one (node saved) saved-IsKeyed one_there refl
      deleted_web

abbrev two : Destination
two = record one { name = "two"; port = 8081 }

abbrev both : FusisState
both = record saved { destinations = ("one", one) ∷ ("two", two) ∷ [] }

added_two : add_destination small none web two (node saved) ≡ returned (node both, none)
unfolding run
added_two = refl

add_destination-Adding_example : Destinations.Adding none web two (node saved) (node both) none
add_destination-Adding_example = add_destination-Adding small none web two (node saved) added_two

-- Destinations of three modes, one of them unknown, each with its own counters.
abbrev served : Service
served = record web {
  destinations =
      record one { mode = "nat" }
      ∷ record two { mode = "tunnel" }
      ∷ record two { mode = "masq" }
      ∷ [];
}

abbrev conns : ℕ → DestinationStats
conns i = record { active_conns = i + 5; inactive_conns = 2 * i; persist_conns = 1 }

service_trip_example :
    from_service texts (measured_service texts no_counts conns (to_ipvs_service texts served))
    ≡ returned (record web {
      name = "";
      destinations =
          record one { name = ""; service_id = ""; stats = some (conns 0) }
          ∷ record two { name = ""; service_id = ""; mode = "tunnel"; stats = some (conns 1) }
          ∷ record two { name = ""; service_id = ""; mode = "route"; stats = some (conns 2) }
          ∷ [];
      stats = some no_counts;
    })
service_trip_example =
    service_trip texts (omega arith, omega arith, omega arith) no_counts conns served refl
      (refl, (refl, (refl, tt)))
