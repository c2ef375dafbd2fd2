-- ===== src/Ipvs/Sync/Converges.antt =====
-- `SyncState` leaves exactly the replicated services in the kernel's table.
use fusis.Prelude.{
  String, ◌≡◌, refl, ◌∙◌, ◌==◌, eq_iff, List, [], ◌∷◌, Option, Bool, true, false, not, ◌&&◌, ◌||◌,
  All, arith, if◌then◌else◌,
}
use fusis.GoMap.{values}
use fusis.Types.{Error, ok, returned}
use fusis.Types.Service
use fusis.Types.Service.{Service}
use fusis.Types.Destination.{Destination}
use fusis.Ipvs.State.{FusisState, get_services}
use fusis.Ipvs.Structs.{
  Network, KernelService, KernelDestination, to_ipvs_service, to_ipvs_destination,
}
use fusis.Ipvs.Sync.{
  Kernel, Run, each_service, each_destination, merge_destinations, merge_services, carry_out,
  service_plan, from_services, sync_state, multiple_errors,
}
use fusis.Diff.Laws.{mentions, HasDistinctKeys, diff-partition}
use fusis.Diff.Parts.{added-HasDistinctKeys, added-All, removed-All}

abbrev pub has_service : String → List Service → Bool
has_service = mentions Service.kernel_key

-- What `SyncState` relies on: the table can be read, as `view`; adding a service that is not in it puts
-- just that one in, deleting a service takes just that one out, and an update, or a change of a
-- destination, leaves the services in place. `IsStored` holds for the services that the kernel reads
-- back under the key that they were sent with, those that it reads back included.
pub record WorkingTable (network : Network) (kernel : Kernel network) (IsStored : Service → Type 0)
    : Type 0 where
  pub listed : kernel.Table → List (KernelService network)
  pub view : kernel.Table → List Service
  pub can_list : (t : kernel.Table) → kernel.list_services t ≡ ok (listed t)
  pub can_read : (t : kernel.Table) → from_services network kernel (listed t) ≡ returned (view t)
  pub no_doubles : (t : kernel.Table) → HasDistinctKeys Service.kernel_key (view t)
  pub stored : (t : kernel.Table) → All IsStored (view t)
  pub added :
      (s : Service) (k : String) (t : kernel.Table)
      → IsStored s
      → has_service (Service.kernel_key s) (view t) ≡ false
      → has_service k (view (kernel.add_service (to_ipvs_service network s) t).0)
        ≡ (if Service.kernel_key s == k then true else has_service k (view t))
  pub deleted :
      (s : Service) (k : String) (t : kernel.Table)
      → IsStored s
      → has_service k (view (kernel.delete_service (to_ipvs_service network s) t).0)
        ≡ (if Service.kernel_key s == k then false else has_service k (view t))
  pub updated :
      (s : Service) (k : String) (t : kernel.Table)
      → has_service k (view (kernel.update_service (to_ipvs_service network s) t).0)
        ≡ has_service k (view t)
  pub destination_added :
      (s : Service) (d : Destination) (k : String) (t : kernel.Table)
      → has_service k (
          view
            (kernel.add_destination
              (to_ipvs_service network s)
              (to_ipvs_destination network d)
              t).0)
        ≡ has_service k (view t)
  pub destination_deleted :
      (s : Service) (d : Destination) (k : String) (t : kernel.Table)
      → has_service k (
          view
            (kernel.delete_destination
              (to_ipvs_service network s)
              (to_ipvs_destination network d)
              t).0)
        ≡ has_service k (view t)
  pub destination_updated :
      (s : Service) (d : Destination) (k : String) (t : kernel.Table)
      → has_service k (
          view
            (kernel.update_destination
              (to_ipvs_service network s)
              (to_ipvs_destination network d)
              t).0)
        ≡ has_service k (view t)

module _ (network : Network) (kernel : Kernel network) (IsStored : Service → Type 0)
    (working : WorkingTable network kernel IsStored) where
  open kernel use {Table}
  open working use {
    listed, view, can_list, can_read, no_doubles, stored, added, deleted, updated,
    destination_added, destination_deleted, destination_updated,
  }

  abbrev pub holds : String → Table × List String → Bool
  holds k r = has_service k (view r.0)

  pub each_service-adds :
      (what : String) (ss : List Service) (r : Run network kernel)
      → All IsStored ss
      → HasDistinctKeys Service.kernel_key ss
      → ((k : String) → has_service k ss ≡ true → holds k r ≡ false)
      → (k : String)
      → holds k (each_service network kernel what kernel.add_service ss r)
        ≡ (has_service k ss || holds k r)
  unfolding each_service
  each_service-adds what [] r valid distinct absent k = refl
  each_service-adds what (s ∷ ss) r valid distinct absent k =
      let free =
        absent (Service.kernel_key s)
          (ground (arith, eq_iff (Service.kernel_key s) (Service.kernel_key s))) in
      each_service-adds what ss _ valid.1 distinct.1
        (λ j m. ground (
          arith,
          added s j r.0 valid.0 free,
          absent j,
          eq_iff (Service.kernel_key s) j,
          distinct.0,
        ))
        k
      ∙ ground (arith, added s k r.0 valid.0 free, eq_iff (Service.kernel_key s) k)

  pub each_service-deletes :
      (what : String) (ss : List Service) (r : Run network kernel)
      → All IsStored ss
      → (k : String)
      → holds k (each_service network kernel what kernel.delete_service ss r)
        ≡ (not (has_service k ss) && holds k r)
  unfolding each_service
  each_service-deletes what [] r valid k = refl
  each_service-deletes what (s ∷ ss) r valid k =
      each_service-deletes what ss _ valid.1 k
      ∙ ground (arith, deleted s k r.0 valid.0, eq_iff (Service.kernel_key s) k)

  -- A call for a destination that leaves the services in place.
  abbrev IsHarmless :
      (KernelService network → KernelDestination network → Table → Table × Option Error) → Type 0
  IsHarmless change =
      (s : Service) (d : Destination) (k : String) (t : Table)
      → has_service k
          (view (change (to_ipvs_service network s) (to_ipvs_destination network d) t).0)
        ≡ has_service k (view t)

  each_destination-holds :
      (what : String)
      (change : KernelService network → KernelDestination network → Table → Table × Option Error)
      → IsHarmless change
      → (s : Service) (ds : List Destination) (r : Run network kernel) (k : String)
      → holds k (each_destination network kernel what change s ds r) ≡ holds k r
  unfolding each_destination
  each_destination-holds what change h s [] r k = refl
  each_destination-holds what change h s (d ∷ ds) r k =
      each_destination-holds what change h s ds _ k ∙ h s d k r.0

  pub merge_services-holds :
      (pairs : List (Service × Service)) (r : Run network kernel) (k : String)
      → holds k (merge_services network kernel pairs r) ≡ holds k r
  unfolding merge_services merge_destinations
  merge_services-holds [] r k = refl
  merge_services-holds ((old, new) ∷ pairs) r k =
      merge_services-holds pairs _ k
      ∙ (each_destination-holds _ kernel.update_destination destination_updated new _ _ k
          ∙ (each_destination-holds _ kernel.delete_destination destination_deleted new _ _ k
              ∙ (each_destination-holds _ kernel.add_destination destination_added new _ _ k
                  ∙ updated new k r.0)))

  pub carry_out-holds :
      (s : FusisState) (t : Table)
      → All IsStored (get_services s)
      → (k : String)
      → holds k (carry_out network kernel (service_plan (view t) s) (t, []))
        ≡ has_service k (get_services s)
  unfolding carry_out
  carry_out-holds s t valid k =
      let olds = view t in
      let news = get_services s in
      let plan = service_plan olds s in
      let key = Service.kernel_key in
      let parts = λ (j : String). diff-partition key key j olds news (no_doubles t) in
      let adding =
        each_service-adds "adding service" (values plan.to_add) (t, [])
          (added-All key key olds news IsStored valid) (added-HasDistinctKeys key key olds news)
          (λ j m. ground (arith, (parts j).0)) k in
      let deleting =
        each_service-deletes "deleting service" plan.to_remove
          (each_service network kernel "adding service" kernel.add_service (values plan.to_add)
            (t, []))
          (removed-All key key olds news IsStored (stored t)) k in
      merge_services-holds plan.to_merge _ k
      ∙ (deleting ∙ ground (arith, adding, (parts k).0, (parts k).1))

  -- On a working table, and if every service is one that the kernel reads back under its key,
  -- `SyncState` returns, and a service is then in the table, by its kernel key, exactly if it is one of
  -- the replicated services, whatever errors the changes of destinations gave.
  pub sync_state-converges :
      (s : FusisState) (t : Table)
      → All IsStored (get_services s)
      → (t' : Table) × (e : Option Error) × (sync_state network kernel s t ≡ returned (t', e))
        × ((k : String) → has_service k (view t') ≡ has_service k (get_services s))
  unfolding sync_state
  sync_state-converges s t valid = (
    (carry_out network kernel (service_plan (view t) s) (t, [])).0,
    multiple_errors (carry_out network kernel (service_plan (view t) s) (t, [])).1,
    rw (can_list t) (rw (can_read t) refl),
    carry_out-holds s t valid,
  )
