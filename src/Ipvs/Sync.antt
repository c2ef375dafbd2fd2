-- ===== src/Ipvs/Sync.antt =====
-- ipvs/ipvs.go: `SyncState` makes the kernel's table hold the replicated services.
pub mod Converges
pub mod Destinations
pub mod Merging
pub mod Table
pub mod Pairs
pub mod Loops
pub mod Exact
use fusis.Prelude.{String, Option, none, some, List, [], ◌∷◌, ◌++◌, map}
use fusis.Prelude.Text.{concat, join}
use fusis.GoMap.{values}
use fusis.Types.{Error, Result, ok, err, other, error_text, Outcome, returned, panicked}
use fusis.Types.Service
use fusis.Types.Service.{Service}
use fusis.Types.Destination
use fusis.Types.Destination.{Destination}
use fusis.Ipvs.State.{FusisState, get_services}
use fusis.Ipvs.Structs.{
  Network, KernelService, KernelDestination, to_ipvs_service, to_ipvs_destination, from_service,
  cons_outcome,
}
use fusis.Diff.{Plan, diff}

-- What `gipvs` does to the kernel's table, and the texts that `%#v` prints of a record.
pub record Kernel (network : Network) : Type 1 where
  pub Table : Type 0
  pub init : Table → Table × Option Error
  pub flush : Table → Table × Option Error
  pub list_services : Table → Result (List (KernelService network))
  pub add_service : KernelService network → Table → Table × Option Error
  pub delete_service : KernelService network → Table → Table × Option Error
  pub update_service : KernelService network → Table → Table × Option Error
  pub add_destination :
      KernelService network → KernelDestination network → Table → Table × Option Error
  pub delete_destination :
      KernelService network → KernelDestination network → Table → Table × Option Error
  pub update_destination :
      KernelService network → KernelDestination network → Table → Table × Option Error
  pub show_service : Service → String
  pub show_destination : Destination → String

-- The new entries of `errors` after a call.
abbrev pub noted : List String → String → String → Option Error → List String
noted errors what item none = errors
noted errors what item (some e) =
    errors ++ concat ("error " ∷ what ∷ " " ∷ item ∷ ": " ∷ error_text e ∷ []) ∷ []

unfoldable pub multiple_errors : List String → Option Error
multiple_errors [] = none
multiple_errors (e ∷ es) = some (other (concat ("multiple errors: " ∷ join " | " (e ∷ es) ∷ [])))

-- `diffDestinations`: `toUpdate` holds the new destinations.
abbrev pub destination_plan : Service → Service → Plan Destination Destination
destination_plan old new =
    diff Destination.kernel_key Destination.kernel_key old.destinations new.destinations

abbrev pub service_plan : List Service → FusisState → Plan Service Service
service_plan olds s = diff Service.kernel_key Service.kernel_key olds (get_services s)

module _ (network : Network) (kernel : Kernel network) where
  open kernel use {
    Table, list_services, add_service, delete_service, update_service, add_destination,
    delete_destination, update_destination, show_service, show_destination,
  }

  abbrev pub Run : Type 0
  Run = Table × List String

  -- One call of the kernel for a service, whose error is collected.
  abbrev call_service :
      String → (KernelService network → Table → Table × Option Error) → Service → Run → Run
  call_service what change s (t, errors) =
      let (t', failure) = change (to_ipvs_service network s) t in
      (t', noted errors what (show_service s) failure)

  unfoldable pub each_service :
      String → (KernelService network → Table → Table × Option Error) → List Service → Run → Run
  each_service what change [] r = r
  each_service what change (s ∷ ss) r = each_service what change ss (call_service what change s r)

  -- The same for the destinations of a service.
  abbrev call_destination :
      String
      → (KernelService network → KernelDestination network → Table → Table × Option Error)
      → Service
      → Destination
      → Run
      → Run
  call_destination what change s d (t, errors) =
      let (t', failure) = change (to_ipvs_service network s) (to_ipvs_destination network d) t in
      (t', noted errors what (show_destination d) failure)

  unfoldable pub each_destination :
      String
      → (KernelService network → KernelDestination network → Table → Table × Option Error)
      → Service
      → List Destination
      → Run
      → Run
  each_destination what change s [] r = r
  each_destination what change s (d ∷ ds) r =
      each_destination what change s ds (call_destination what change s d r)

  -- The three loops over the destinations of a service that stays; the third says "deleting" too.
  unfoldable pub merge_destinations : Service → Plan Destination Destination → Run → Run
  merge_destinations new plan r =
      each_destination "deleting destination" update_destination new
        (map (λ pair. pair.1) plan.to_merge)
        (each_destination "deleting destination" delete_destination new plan.to_remove
          (each_destination "adding destination" add_destination new (values plan.to_add) r))

  unfoldable pub merge_services : List (Service × Service) → Run → Run
  unfolding merge_destinations
  merge_services [] r = r
  merge_services ((old, new) ∷ pairs) r = merge_services pairs (
      merge_destinations new (destination_plan old new)
        (call_service "updating service" update_service new r))

  unfoldable pub carry_out : Plan Service Service → Run → Run
  unfolding each_service merge_services
  carry_out plan r = merge_services plan.to_merge (
      each_service "deleting service" delete_service plan.to_remove
        (each_service "adding service" add_service (values plan.to_add) r))

  unfoldable pub from_services : List (KernelService network) → Outcome (List Service)
  from_services [] = returned []
  from_services (s ∷ ss) = cons_outcome (from_service network s) (from_services ss)

  abbrev finish : Run → Table × Option Error
  finish (t, errors) = (t, multiple_errors errors)

  abbrev sync_read : Outcome (List Service) → FusisState → Table → Outcome (Table × Option Error)
  sync_read panicked s t = panicked
  sync_read (returned olds) s t = returned (finish (carry_out (service_plan olds s) (t, [])))

  abbrev sync_listed :
      Result (List (KernelService network)) → FusisState → Table → Outcome (Table × Option Error)
  sync_listed (err e) s t = returned (t, some e)
  sync_listed (ok listed) s t = sync_read (from_services listed) s t

  unfoldable pub sync_state : FusisState → Table → Outcome (Table × Option Error)
  sync_state s t = sync_listed (list_services t) s t

  -- `New`: the kernel module is initialised, and its table flushed.
  unfoldable pub new_ipvs : Table → Table × Option Error
  new_ipvs t = after_init (kernel.init t)
    where
      after_flush : Table × Option Error → Table × Option Error
      after_flush (t', none) = (t', none)
      after_flush (t', some e) =
          (t', some (other (concat ("IPVS flushing table failed: " ∷ error_text e ∷ []))))

      after_init : Table × Option Error → Table × Option Error
      after_init (t', none) = after_flush (kernel.flush t')
      after_init (t', some e) =
          (t', some (other (concat ("IPVS initialisation failed: " ∷ error_text e ∷ []))))

  -- `Flush`
  unfoldable pub flush_table : Table → Table × Option Error
  flush_table t = kernel.flush t
