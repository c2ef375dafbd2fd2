-- ===== src/Ipvs/Sync/Destinations.antt =====
-- What the loops over the destinations of a service rely on.
use fusis.Prelude.{
  String, ◌≡◌, ◌==◌, List, [], ◌∷◌, none, Option, Bool, true, false, All, if◌then◌else◌,
}
use fusis.Types.Service.{Service}
use fusis.Types.Destination
use fusis.Types.Destination.{Destination}
use fusis.Types.{Error}
use fusis.Ipvs.Structs.{
  Network, KernelService, KernelDestination, to_ipvs_service, to_ipvs_destination,
}
use fusis.Ipvs.Sync.{Kernel, Run, each_destination}
use fusis.Diff.Laws.{mentions, HasDistinctKeys}

abbrev pub has_destination : String → List Destination → Bool
has_destination = mentions Destination.kernel_key

-- What the loops rely on, for the service `svc`, in the tables that it is in, which no call for a
-- destination of it takes it out of: adding a destination that it does not have succeeds
-- and adds just that one, deleting one that it has succeeds and takes just that one away, and updating
-- one that it has succeeds and leaves the destinations in place. `IsStored` holds for the destinations
-- that the kernel keeps under the key that they were sent with, those that it reads back included.
pub record WorkingService (network : Network) (kernel : Kernel network) (svc : Service)
    (IsStored : Destination → Type 0) : Type 1 where
  pub serves : kernel.Table → Type 0
  pub add_serves :
      (d : Destination) (t : kernel.Table)
      → serves t
      → serves
          (kernel.add_destination (to_ipvs_service network svc) (to_ipvs_destination network d) t).0
  pub delete_serves :
      (d : Destination) (t : kernel.Table)
      → serves t
      → serves
          (kernel.delete_destination
            (to_ipvs_service network svc)
            (to_ipvs_destination network d)
            t).0
  pub update_serves :
      (d : Destination) (t : kernel.Table)
      → serves t
      → serves
          (kernel.update_destination
            (to_ipvs_service network svc)
            (to_ipvs_destination network d)
            t).0
  pub kept : kernel.Table → List Destination
  pub no_doubles : (t : kernel.Table) → HasDistinctKeys Destination.kernel_key (kept t)
  pub stored : (t : kernel.Table) → All IsStored (kept t)
  pub can_add :
      (d : Destination) (t : kernel.Table)
      → serves t
      → IsStored d
      → has_destination (Destination.kernel_key d) (kept t) ≡ false
      → (kernel.add_destination (to_ipvs_service network svc) (to_ipvs_destination network d) t).1
        ≡ none
  pub added :
      (d : Destination) (k : String) (t : kernel.Table)
      → serves t
      → IsStored d
      → has_destination (Destination.kernel_key d) (kept t) ≡ false
      → has_destination k (
          kept
            (kernel.add_destination
              (to_ipvs_service network svc)
              (to_ipvs_destination network d)
              t).0)
        ≡ (if Destination.kernel_key d == k then true else has_destination k (kept t))
  pub can_delete :
      (d : Destination) (t : kernel.Table)
      → serves t
      → IsStored d
      → has_destination (Destination.kernel_key d) (kept t) ≡ true
      → (kernel.delete_destination
          (to_ipvs_service network svc)
          (to_ipvs_destination network d)
          t).1
        ≡ none
  pub deleted :
      (d : Destination) (k : String) (t : kernel.Table)
      → serves t
      → IsStored d
      → has_destination (Destination.kernel_key d) (kept t) ≡ true
      → has_destination k (
          kept
            (kernel.delete_destination
              (to_ipvs_service network svc)
              (to_ipvs_destination network d)
              t).0)
        ≡ (if Destination.kernel_key d == k then false else has_destination k (kept t))
  pub can_update :
      (d : Destination) (t : kernel.Table)
      → serves t
      → IsStored d
      → has_destination (Destination.kernel_key d) (kept t) ≡ true
      → (kernel.update_destination
          (to_ipvs_service network svc)
          (to_ipvs_destination network d)
          t).1
        ≡ none
  pub updated :
      (d : Destination) (k : String) (t : kernel.Table)
      → serves t
      → IsStored d
      → has_destination (Destination.kernel_key d) (kept t) ≡ true
      → has_destination k (
          kept
            (kernel.update_destination
              (to_ipvs_service network svc)
              (to_ipvs_destination network d)
              t).0)
        ≡ has_destination k (kept t)

-- What each call keeps, the loop keeps.
pub each_destination-keeps :
    (network : Network) (kernel : Kernel network) (what : String)
    (change : KernelService network
      → KernelDestination network
      → kernel.Table
      → kernel.Table × Option Error)
    (svc : Service) (P : kernel.Table → Type 0)
    → ((d : Destination) (t : kernel.Table)
        → P t
        → P (change (to_ipvs_service network svc) (to_ipvs_destination network d) t).0)
    → (ds : List Destination) (r : Run network kernel) → P r.0
    → P (each_destination network kernel what change svc ds r).0
unfolding each_destination
each_destination-keeps network kernel what change svc P h [] r p = p
each_destination-keeps network kernel what change svc P h (d ∷ ds) r p =
    each_destination-keeps network kernel what change svc P h ds _ (h d r.0 p)
