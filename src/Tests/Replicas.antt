-- ===== src/Tests/Replicas.antt =====
-- A leader and another balancer apply one log, the leader on a machine with leftovers.
use fusis.Prelude.{
  String, ◌≡◌, refl, List, [], ◌∷◌, ◌++◌, map, none, some, Option, Bool, true, false, inl,
}
use fusis.Prelude.Text.{concat, decimal}
use fusis.GoMap.{values}
use fusis.Types.{Error, Outcome, returned}
use fusis.Types.Service
use fusis.Types.Service.{Service}
use fusis.Types.Destination
use fusis.Ipvs.State.{FusisState, new_fusis_state, get_services, with_destinations}
use fusis.Engine.{Command, add_service_op, add_destination_op}
use fusis.Engine.Replication.{run_log}
use fusis.Ipvs.Structs.{
  from_service, from_destinations, get_service_stats, from_destination, get_destination_stats,
  ip_proto_to_string, string_to_ip_proto, to_ipvs_destination,
}
use fusis.Ipvs.Sync.{each_destination}
use fusis.Net.{get_fusis_vips_ips}
use fusis.Provider.None.{host_of, sync_vips}
use fusis.Provider.None.Converges.{on_interface}
use fusis.Balancer.{Machine}
use fusis.Balancer.Exact.{IsInLine}
use fusis.Balancer.Replicas.{change, replicas-IsInLine}
use fusis.Diff.Laws.{HasDistinctKeys}
use fusis.Tests.Samples.{web, one}
use fusis.Tests.Interface.{working}
use fusis.Tests.Balancer
use fusis.Tests.Served.{platform, machine, IsServable}
use fusis.Tests.Whole.Laws.{IsNamed, IsAny, working_boxes}
use fusis.Tests.Whole.Serving.{whole_boxes}

abbrev first : List Command
first = record { op = add_service_op; service = some web; destination = none } ∷ []

abbrev last : Command
last = record { op = add_destination_op; service = some web; destination = some one }

abbrev web_served : FusisState
web_served = record { services = ("web", web) ∷ []; destinations = ("one", one) ∷ [] }

abbrev empty_machine : Machine platform
empty_machine = record { host = machine.host; table = ([], tt) }

abbrev change_here :
    Bool → FusisState → Machine platform → Outcome (Machine platform × Option Error)
change_here =
    change platform "eth0" (λ ip. Unit {0}) working IsNamed IsAny working_boxes whole_boxes

abbrev run_of : Bool → Machine platform → Outcome (FusisState × Machine platform)
run_of leader m = run_log (change_here leader) (first ++ last ∷ []) new_fusis_state m

abbrev machine_of : Outcome (FusisState × Machine platform) → Machine platform
machine_of (returned (s, m)) = m
machine_of _ = machine

-- What a run of the log computes with.
start : Unit {0}
unfolding Balancer.run run_log sync_vips get_fusis_vips_ips from_service from_destinations
    get_service_stats from_destination get_destination_stats ip_proto_to_string each_destination
    string_to_ip_proto Destination.kernel_key to_ipvs_destination
start = tt

led : run_of true machine ≡ returned (web_served, machine_of (run_of true machine))
unfolding start
led = refl

followed :
    run_of false empty_machine ≡ returned (web_served, machine_of (run_of false empty_machine))
unfolding start
followed = refl

web_served-IsServable : IsServable web_served
unfolding get_services with_destinations values
web_served-IsServable = record {
  addresses = (tt, tt);
  services = (inl refl, tt);
  destinations = ((tt, tt), tt);
}

web_served-HasDistinctKeys : HasDistinctKeys Service.kernel_key (get_services web_served)
unfolding get_services with_destinations values Service.kernel_key concat decimal
web_served-HasDistinctKeys = (refl, tt)

abbrev InLine : Machine platform → Type 0
InLine =
    IsInLine platform "eth0" (λ ip. Unit {0}) working IsNamed IsAny working_boxes whole_boxes
      web_served

replicas-IsInLine_example :
    (web_served ≡ web_served)
    × InLine (machine_of (run_of true machine))
    × InLine (machine_of (run_of false empty_machine))
    × (◌≡◌ {A = Bool} true true
        → (k : String)
        → on_interface k (working.vips (machine_of (run_of true machine)).host)
          ≡ on_interface k (map host_of (get_services web_served)))
replicas-IsInLine_example =
    replicas-IsInLine platform "eth0" (λ ip. Unit {0}) working IsNamed IsAny working_boxes
      whole_boxes true false first last new_fusis_state web_served web_served machine
      (machine_of (run_of true machine)) empty_machine (machine_of (run_of false empty_machine)) led
      followed web_served-IsServable web_served-HasDistinctKeys
