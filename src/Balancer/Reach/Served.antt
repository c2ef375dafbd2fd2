-- ===== src/Balancer/Reach/Served.antt =====
-- A balancer and its machine together: what the calls leave in the state is what the machine serves.
use fusis.Prelude.{String, ◌≡◌, ◌≢◌, refl, map, none, true, All, All-mem, Memᴰ}
use fusis.Prelude.Text.Dashes.{NoDash}
use fusis.GoMap.{values}
use fusis.Types.{ok, returned}
use fusis.Types.Service
use fusis.Types.Service.{Service}
use fusis.Types.Destination.{Destination}
use fusis.Types.Keys.{service_key-injective}
use fusis.Ipvs.State
use fusis.Ipvs.State.{FusisState, new_fusis_state, get_services, with_destinations}
use fusis.Ipvs.State.Invariant.{get_services_complete}
use fusis.Ipvs.Sync.Converges.{WorkingTable}
use fusis.Ipvs.Sync.Table.{WholeTable}
use fusis.Provider.None.{host_of}
use fusis.Provider.None.Converges.{WorkingInterface, on_interface}
use fusis.Balancer.{Platform, Node, Machine, handle_state_change}
use fusis.Balancer.Exact.{CanServe, IsInLine, handle_state_change-exact}
use fusis.Balancer.Reach.{Reach, HasOwnHosts, reach-HasOwnHosts, new_fusis_state-HasOwnHosts}
use fusis.Diff.Laws.{HasDistinctKeys}
use fusis.Diff.Parts.{values-HasDistinctKeys}
use fusis.Diff.Distinct.{map-HasDistinctKeys, distinct_under}

-- A service that has a name and got an address, with a protocol such as "tcp".
pub record IsReady (svc : Service) : Type 0 where
  pub named : svc.name ≢ ""
  pub addressed : svc.host ≢ ""
  pub protocol_plain : NoDash svc.protocol

names_distinct :
    (s : FusisState)
    → HasOwnHosts s
    → HasDistinctKeys (λ (svc : Service). svc.name) (get_services s)
unfolding get_services with_destinations
names_distinct s own =
    map-HasDistinctKeys Service.get_id (λ (svc : Service). svc.name) (with_destinations s)
      (λ svc. refl) (values s.services)
      (values-HasDistinctKeys Service.get_id s.services own.keyed.services_by_name
        own.keyed.services_once)

-- In a state with own hosts whose services are ready, no two of them have one kernel key.
pub own-HasDistinctKeys :
    (s : FusisState)
    → HasOwnHosts s
    → All IsReady (get_services s)
    → HasDistinctKeys Service.kernel_key (get_services s)
own-HasDistinctKeys s own ready =
    distinct_under (λ (svc : Service). svc.name) Service.kernel_key (get_services s) apart
      (names_distinct s own)
  where
    found : (a : Service) → Memᴰ a (get_services s) → State.get_service a.name s ≡ ok a
    found a m =
        (get_services_complete a s own.keyed (All-mem IsReady (get_services s) ready m).named).0 m

    apart :
        (a b : Service)
        → Memᴰ a (get_services s)
        → Memᴰ b (get_services s)
        → a.name ≢ b.name
        → Service.kernel_key a ≢ Service.kernel_key b
    apart a b ma mb ne same =
        let ra = All-mem IsReady (get_services s) ready ma in
        let rb = All-mem IsReady (get_services s) ready mb in
        own.hosts.apart a.name b.name a b (found a ma) (found b mb) ne ra.addressed
          (service_key-injective a b ra.protocol_plain rb.protocol_plain same).0

module _ (platform : Platform) (iface : String) (IsAddress : String → Type 0)
    (working : WorkingInterface platform.netlink iface IsAddress) (IsService : Service → Type 0)
    (IsDestination : Destination → Type 0)
    (table : WorkingTable platform.network platform.kernel IsService)
    (whole : WholeTable platform.network platform.kernel IsService IsDestination table) where
  open working use {vips}

  -- A balancer that started empty and got any calls, itself or replicated from another that held the same
  -- state, in any order and with any failures, and whose
  -- services are ready, with addresses and destinations that a working machine can serve:
  -- `handleStateChange` on the leader returns with no error, the table then holds, by kernel key, exactly
  -- the services of the balancer, each with exactly its destinations, and the interface exactly their hosts.
  pub reached-served :
      (n0 n : Node platform) (m : Machine platform)
      → n0.state ≡ new_fusis_state
      → Reach n0 n
      → All IsReady (get_services n.state)
      → CanServe platform iface IsAddress working IsService IsDestination table whole n.state
      → (m' : Machine platform) × (handle_state_change platform true iface n.state m
          ≡ returned (m', none))
        × IsInLine platform iface IsAddress working IsService IsDestination table whole n.state m'
        × ((k : String)
            → on_interface k (vips m'.host) ≡ on_interface k (map host_of (get_services n.state)))
  reached-served n0 n m fresh calls ready can =
      let own = reach-HasOwnHosts (rw fresh new_fusis_state-HasOwnHosts) calls in
      handle_state_change-exact platform iface IsAddress working IsService IsDestination table whole
        true n.state m can (own-HasDistinctKeys n.state own ready)
