-- ===== src/Balancer/Exact.antt =====
-- `handleStateChange` brings the machine in line with the replicated state, destinations included.
use fusis.Prelude.{String, ◌≡◌, refl, map, none, Bool, true, false, All, if◌then◌else◌}
use fusis.Types.{returned}
use fusis.Types.Service
use fusis.Types.Service.{Service}
use fusis.Types.Destination.{Destination}
use fusis.Ipvs.State.{FusisState, get_services}
use fusis.Ipvs.Sync.Converges.{WorkingTable, has_service}
use fusis.Ipvs.Sync.Destinations.{has_destination}
use fusis.Ipvs.Sync.Table.{destinations_at, WholeTable}
use fusis.Ipvs.Sync.Exact.{sync_state-exact}
use fusis.Provider.None.{host_of}
use fusis.Provider.None.Converges.{WorkingInterface, on_interface, sync_vips-converges}
use fusis.Balancer.{Platform, Machine, sync_table, handle_state_change}
use fusis.Diff.Laws.{HasDistinctKeys}

module _ (platform : Platform) (iface : String) (IsAddress : String → Type 0)
    (working : WorkingInterface platform.netlink iface IsAddress) (IsService : Service → Type 0)
    (IsDestination : Destination → Type 0)
    (table : WorkingTable platform.network platform.kernel IsService)
    (whole : WholeTable platform.network platform.kernel IsService IsDestination table) where
  open platform use {network, kernel, netlink}
  open working use {vips}
  open table use {view}

  -- The services that the machine can serve.
  pub record CanServe (s : FusisState) : Type 0 where
    pub addresses : All IsAddress (map host_of (get_services s))
    pub services : All IsService (get_services s)
    pub destinations : All (λ svc. All IsDestination svc.destinations) (get_services s)

  -- The table holds, by kernel key, exactly the services of the state, each with its destinations.
  pub record IsInLine (s : FusisState) (m : Machine platform) : Type 0 where
    pub has_services : (k : String) → has_service k (view m.table) ≡ has_service k (get_services s)
    pub has_destinations :
        (k j : String)
        → has_destination j (destinations_at k (view m.table))
          ≡ has_destination j (destinations_at k (get_services s))

  sync_table-exact :
      (s : FusisState) (m : Machine platform)
      → CanServe s
      → HasDistinctKeys Service.kernel_key (get_services s)
      → (m' : Machine platform) × (sync_table platform s m ≡ returned (m', none))
        × (m'.host ≡ m.host)
        × IsInLine s m'
  unfolding sync_table
  sync_table-exact s m can once =
      let (t, done, services, destinations) =
        sync_state-exact network kernel IsService IsDestination table whole s m.table can.services
          can.destinations once in
      (
        record m { table = t },
        rw (done, sync_table) refl,
        refl,
        record { has_services = services; has_destinations = destinations },
      )

  -- On a working interface and a working table that can serve the services, of which no two have one
  -- kernel key, `handleStateChange` returns with no error; the table then holds, by kernel key, exactly the
  -- replicated services, each with exactly its destinations, and on the leader the interface has exactly
  -- the hosts of the services, while another balancer leaves its interface as it is.
  pub handle_state_change-exact :
      (leader : Bool) (s : FusisState) (m : Machine platform)
      → CanServe s
      → HasDistinctKeys Service.kernel_key (get_services s)
      → (m' : Machine platform) × (handle_state_change platform leader iface s m
          ≡ returned (m', none))
        × IsInLine s m'
        × ((k : String)
            → on_interface k (vips m'.host) ≡ (
                if leader
                then on_interface k (map host_of (get_services s))
                else on_interface k (vips m.host)))
  unfolding handle_state_change
  handle_state_change-exact false s m can once =
      let (m', done, kept, exact) = sync_table-exact s m can once in
      (m', done, exact, λ k. rw kept refl)
  handle_state_change-exact true s m can once =
      let (h, synced, on) =
        sync_vips-converges netlink iface IsAddress working s m.host can.addresses in
      let (m', done, kept, exact) = sync_table-exact s (record m { host = h }) can once in
      (m', rw (synced, handle_state_change) done, exact, λ k. rw kept (on k))
