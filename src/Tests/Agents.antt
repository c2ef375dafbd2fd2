-- ===== src/Tests/Agents.antt =====
-- The statistics of a balancer, and an agent that announces itself and leaves.
use mathlib.Core.List.{reverse}
use fusis.Prelude.{ℕ, suc, ◌+◌, ◌*◌, String, ◌≡◌, ◌≢◌, refl, none, some, List, [], ◌∷◌, pos}
use fusis.Prelude.Text.{join}
use fusis.GoMap.{values}
use fusis.Types.{Result, ok, err, returned, destination_not_found}
use fusis.Types.Destination.{Destination, DestinationStats}
use fusis.Ipvs.State
use fusis.Ipvs.State.{FusisState, get_services, with_destinations}
use fusis.Ipvs.Structs.{
  KernelService, from_service, from_destinations, from_destination, get_destination_stats,
  get_service_stats, to_ipvs_service, to_ipvs_destination,
}
use fusis.Ipvs.Structs.Trip.{measured_service}
use fusis.Config
use fusis.Config.{AgentConfig, agent_ip}
use fusis.Net.{get_ip_by_interface}
use fusis.Engine.Stats.{
  done, crash, syslog, new_stats_logger, collect_stats, collect_each, sync_service, run_stats, info,
  router_stats,
}
use fusis.Engine.Stats.Lines.{run_stats_untyped}
use fusis.Agent.{
  member_join, other_event, announcement, handle_events, announce_each, handle_event,
  broadcast_to_balancers,
}
use fusis.Balancer.{get_destination, delete_destination}
use fusis.Balancer.Cluster.{Member, handle_agent_leave}
use fusis.Balancer.Cluster.Agents.{handle_agent_leave-gone}
use fusis.Tests.Samples.{saved, texts, one, no_counts}
use fusis.Tests.Interface
use fusis.Tests.Interface.{ideal}
use fusis.Tests.Balancer
use fusis.Tests.Balancer.{small}
use fusis.Tests.Cluster.{lan}

abbrev conns : ℕ → DestinationStats
conns i = record { active_conns = i + 5; inactive_conns = 2 * i; persist_conns = 1 }

-- A kernel that holds what it was sent, the destinations the other way round, and counts for each.
abbrev counting : KernelService texts → Result (KernelService texts)
counting s =
    ok (measured_service texts no_counts conns (record s { destinations = reverse s.destinations }))

abbrev other_one : Destination
other_one = record one { name = "other"; host = "192.168.0.2" }

abbrev two_saved : FusisState
two_saved = record saved { destinations = ("one", one) ∷ ("other", other_one) ∷ [] }

-- The log of a collection, and the hosts as the kernel gives them.
logged_two :
    collect_stats texts counting (some syslog) two_saved
    ≡ done (
        info "logging stats"
        ∷ router_stats (record {
          service = "web";
          protocol = "tcp";
          port = 80;
          hosts = "192.168.0.2,192.168.0.1";
        })
        ∷ router_stats (record { service = "dns"; protocol = "udp"; port = 53; hosts = "" })
        ∷ [])
unfolding get_services with_destinations values join collect_stats collect_each sync_service
    from_service from_destinations from_destination get_destination_stats get_service_stats
    to_ipvs_service to_ipvs_destination
logged_two = refl

abbrev untyped : Config.Stats
untyped = record { type = ""; interval = 5; params = [] }

run_stats_untyped_example :
    (run_stats texts counting none 0 (saved ∷ []) ≡ done [])
    × ((interval : ℕ) → run_stats texts counting none (suc interval) (saved ∷ []) ≡ crash)
unfolding new_stats_logger
run_stats_untyped_example =
    run_stats_untyped texts counting (λ hook stats. none) untyped none saved [] refl refl

abbrev agent_config : AgentConfig
agent_config = record {
  interface = "eth0";
  balancer = "10.0.0.1";
  name = "three";
  host = "";
  port = 8080;
  weight = pos 5;
  mode = "nat";
  service = "web";
}

-- The agent announces itself once, when its own name joins, and with the weight 1.
announced :
    handle_events ideal agent_config "three"
      (member_join ("b1" ∷ []) ∷ other_event ∷ member_join ("b2" ∷ "three" ∷ []) ∷ [])
      Interface.before
    ≡ returned (
        record {
          name = "add-destination";
          payload = record one { name = "three"; host = "192.168.0.254" };
          filter_tags = ("role", "balancer") ∷ [];
        }
        ∷ [])
unfolding handle_events announce_each handle_event broadcast_to_balancers announcement agent_ip
    get_ip_by_interface
announced = refl

abbrev three : Destination
three = record one { name = "three"; host = "192.168.0.254" }

abbrev with_three : FusisState
with_three = record saved { destinations = ("one", one) ∷ ("three", three) ∷ [] }

abbrev agent_member : Member lan
agent_member = record { name = "three"; addr = "192.168.0.254"; tags = ("role", "agent") ∷ [] }

left :
    handle_agent_leave lan small none agent_member (Balancer.node with_three)
    ≡ returned (Balancer.node saved)
unfolding Balancer.run handle_agent_leave get_destination delete_destination
    State.delete_destination
left = refl

handle_agent_leave-gone_example :
    (State.get_destination "three" saved ≡ err destination_not_found)
    × ((k : String)
        → ◌≢◌ {A = String} "three" k
        → State.get_destination k saved ≡ State.get_destination k with_three)
    × (saved.services ≡ with_three.services)
unfolding Balancer.run announcement
handle_agent_leave-gone_example =
    handle_agent_leave-gone small lan agent_config "192.168.0.254" agent_member
      (Balancer.node with_three) (Balancer.node saved) refl refl refl left
