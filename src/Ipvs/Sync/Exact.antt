-- ===== src/Ipvs/Sync/Exact.antt =====
-- `SyncState` leaves exactly the replicated services in the table, each with exactly its destinations.
use fusis.Prelude.{String, ◌≡◌, sym, ap, ◌∙◌, [], none, All, inl, inr, Bool-cases}
use fusis.Types.{returned}
use fusis.Types.Service
use fusis.Types.Service.{Service}
use fusis.Types.Destination.{Destination}
use fusis.Ipvs.State.{FusisState, get_services}
use fusis.Ipvs.Structs.{Network}
use fusis.Ipvs.Sync.{Kernel, carry_out, service_plan, sync_state, multiple_errors}
use fusis.Ipvs.Sync.Converges.{has_service, WorkingTable, carry_out-holds}
use fusis.Ipvs.Sync.Destinations.{has_destination}
use fusis.Ipvs.Sync.Table.{destinations_at, at_none, distinct-IsPlaced, WholeTable}
use fusis.Diff.Laws.{HasDistinctKeys}
use fusis.Ipvs.Sync.Loops.{wanted, after_third}

module _ (network : Network) (kernel : Kernel network) (IsService : Service → Type 0)
    (IsDestination : Destination → Type 0) (working : WorkingTable network kernel IsService)
    (whole : WholeTable network kernel IsService IsDestination working) where
  open kernel use {Table}
  open working use {view, no_doubles, stored, can_list, can_read}
  open whole use {serving, kept_at}

  -- On a working table, if the kernel reads every service and every destination back under its key, and
  -- no two services have one key, `SyncState` returns with no error; the table then holds, by kernel key,
  -- exactly the replicated services, each with exactly its destinations.
  pub sync_state-exact :
      (s : FusisState) (t : Table)
      → All IsService (get_services s)
      → All (λ svc. All IsDestination svc.destinations) (get_services s)
      → HasDistinctKeys Service.kernel_key (get_services s)
      → (t' : Table) × (sync_state network kernel s t ≡ returned (t', none))
        × ((k : String) → has_service k (view t') ≡ has_service k (get_services s))
        × ((k j : String)
            → has_destination j (destinations_at k (view t'))
              ≡ has_destination j (destinations_at k (get_services s)))
  unfolding sync_state carry_out multiple_errors
  sync_state-exact s t services destinations once =
      let valid =
        wanted network kernel IsService IsDestination working whole (get_services s)
          (get_services s) services destinations (distinct-IsPlaced (get_services s) once) in
      let (clean, exact) =
        after_third network kernel IsService IsDestination working whole s t valid in
      let there = carry_out-holds network kernel IsService working s t services in
      let t' = (carry_out network kernel (service_plan (view t) s) (t, [])).0 in
      (
        t',
        rw (can_list t) (rw (can_read t) (ap (λ es. returned (t', multiple_errors es)) clean)),
        there,
        λ k j. elim (Bool-cases (has_service k (get_services s))) [
          | inl e ↦ exact k j e
          | inr e ↦
              ap (has_destination j) (at_none k (view t') (there k ∙ e))
              ∙ sym (ap (has_destination j) (at_none k (get_services s) e))
        ],
      )
