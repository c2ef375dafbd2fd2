-- ===== src/Balancer/Converges.antt =====
-- `handleStateChange` brings the machine in line with the replicated state.
use fusis.Prelude.{String, ◌≡◌, refl, map, Option, Bool, true, false, All, if◌then◌else◌}
use fusis.Types.{Error, returned}
use fusis.Types.Service.{Service}
use fusis.Ipvs.State.{FusisState, get_services}
use fusis.Ipvs.Sync.Converges.{WorkingTable, has_service, sync_state-converges}
use fusis.Provider.None.{host_of}
use fusis.Provider.None.Converges.{WorkingInterface, on_interface, sync_vips-converges}
use fusis.Balancer.{Platform, Machine, sync_table, handle_state_change}

module _ (platform : Platform) (iface : String) (IsAddress : String → Type 0)
    (working : WorkingInterface platform.netlink iface IsAddress) (IsStored : Service → Type 0)
    (table : WorkingTable platform.network platform.kernel IsStored) where
  open platform use {network, kernel, netlink}
  open working use {vips}
  open table use {view}

  sync_table-holds :
      (s : FusisState) (m : Machine platform)
      → All IsStored (get_services s)
      → (m' : Machine platform) × (e : Option Error) × (sync_table platform s m ≡ returned (m', e))
        × (m'.host ≡ m.host)
        × ((k : String) → has_service k (view m'.table) ≡ has_service k (get_services s))
  unfolding sync_table
  sync_table-holds s m stored =
      let (t, e, done, holds) =
        sync_state-converges network kernel IsStored table s m.table stored in
      (record m { table = t }, e, rw (done, sync_table) refl, refl, holds)

  -- On a working interface and a working table, if the host of every service is a valid address and
  -- the kernel reads every service back under its key, `handleStateChange` returns; the table then
  -- holds, by kernel key, exactly the replicated services, and on the leader the interface has
  -- exactly the hosts of the services, while another balancer leaves its interface as it is.
  pub handle_state_change-converges :
      (leader : Bool) (s : FusisState) (m : Machine platform)
      → All IsAddress (map host_of (get_services s))
      → All IsStored (get_services s)
      → (m' : Machine platform) × (e : Option Error) × (handle_state_change platform leader iface s
            m
          ≡ returned (m', e))
        × ((k : String) → has_service k (view m'.table) ≡ has_service k (get_services s))
        × ((k : String)
            → on_interface k (vips m'.host) ≡ (
                if leader
                then on_interface k (map host_of (get_services s))
                else on_interface k (vips m.host)))
  unfolding handle_state_change
  handle_state_change-converges false s m valid stored =
      let (m', e, done, kept, holds) = sync_table-holds s m stored in
      (m', e, done, holds, λ k. rw kept refl)
  handle_state_change-converges true s m valid stored =
      let (h, synced, on) = sync_vips-converges netlink iface IsAddress working s m.host valid in
      let (m', e, done, kept, holds) = sync_table-holds s (record m { host = h }) stored in
      (m', e, rw (synced, handle_state_change) done, holds, λ k. rw kept (on k))
