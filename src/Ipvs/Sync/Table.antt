-- ===== src/Ipvs/Sync/Table.antt =====
-- The kernel's table as services with their destinations, and what the calls for services do to it.
use fusis.Prelude.{
  String, ◌≡◌, ◌≢◌, refl, ap, ◌∙◌, ◌==◌, eq_iff, List, [], ◌∷◌, none, true, false, Bool, All, arith,
  if◌then◌else◌, String-cases, inl, inr,
}
use fusis.Types.Service
use fusis.Types.Service.{Service}
use fusis.Types.Destination.{Destination}
use fusis.Ipvs.Structs.{Network, to_ipvs_service, to_ipvs_destination}
use fusis.Ipvs.Sync.{Kernel, Run, each_service, noted}
use fusis.Ipvs.Sync.Converges.{has_service, WorkingTable}
use fusis.Ipvs.Sync.Destinations.{has_destination, WorkingService}
use fusis.Diff.Laws.{HasDistinctKeys}

-- The destinations of the service with a key.
abbrev pub destinations_at : String → List Service → List Destination
destinations_at k [] = []
destinations_at k (s ∷ ss) =
    let rest = destinations_at k ss in if Service.kernel_key s == k then s.destinations else rest

-- Each service of a list gives its destinations in another list under its key.
abbrev pub IsPlaced : List Service → Service → Type 0
IsPlaced l s = destinations_at (Service.kernel_key s) l ≡ s.destinations

pub at_none : (k : String) (l : List Service) → has_service k l ≡ false → destinations_at k l ≡ []
at_none k [] h = refl
at_none k (s ∷ l) h = ground (arith, at_none k l)

IsPlaced-later :
    (s : Service) (l m : List Service)
    → has_service (Service.kernel_key s) m ≡ false
    → All (IsPlaced l) m
    → All (IsPlaced (s ∷ l)) m
IsPlaced-later s l [] h all = tt
IsPlaced-later s l (x ∷ m) h all = (
  ground (
    arith,
    all.0,
    eq_iff (Service.kernel_key s) (Service.kernel_key x),
    eq_iff (Service.kernel_key x) (Service.kernel_key s),
    h,
  ),
  IsPlaced-later s l m (ground (arith, h)) all.1,
)

pub distinct-IsPlaced :
    (l : List Service) → HasDistinctKeys Service.kernel_key l → All (IsPlaced l) l
distinct-IsPlaced [] h = tt
distinct-IsPlaced (s ∷ l) h = (
  ground (arith, eq_iff (Service.kernel_key s) (Service.kernel_key s)),
  IsPlaced-later s l l h.0 (distinct-IsPlaced l h.1),
)

pub placed_at :
    (k : String) (l m : List Service)
    → All (IsPlaced l) m
    → has_service k m ≡ true
    → destinations_at k m ≡ destinations_at k l
placed_at k l [] all h = absurd (ground (arith, h))
placed_at k l (s ∷ m) all h = elim (String-cases (Service.kernel_key s) k) [
  | inl e ↦ ground (arith, all.0, e, eq_iff (Service.kernel_key s) k)
  | inr e ↦ ground (arith, placed_at k l m all.1, h, e, eq_iff (Service.kernel_key s) k)
]

-- What `SyncState` relies on beside the services, in the words of gipvs: a service is added with its
-- destinations and deleted with them, and an update leaves them; these calls succeed where the service
-- is missing, or there; each service works for its destinations while it is in the table; and a call
-- for one service leaves the destinations of the others alone.
pub record WholeTable (network : Network) (kernel : Kernel network) (IsService : Service → Type 0)
    (IsDestination : Destination → Type 0) (working : WorkingTable network kernel IsService)
    : Type 1 where
  pub serving : (s : Service) → IsService s → WorkingService network kernel s IsDestination
  pub is_served :
      (s : Service) (h : IsService s) (t : kernel.Table)
      → has_service (Service.kernel_key s) (working.view t) ≡ true
      → (serving s h).serves t
  pub kept_at :
      (s : Service) (h : IsService s) (t : kernel.Table)
      → (serving s h).kept t ≡ destinations_at (Service.kernel_key s) (working.view t)
  pub can_add :
      (s : Service) (t : kernel.Table)
      → IsService s
      → has_service (Service.kernel_key s) (working.view t) ≡ false
      → (kernel.add_service (to_ipvs_service network s) t).1 ≡ none
  pub can_delete :
      (s : Service) (t : kernel.Table)
      → IsService s
      → has_service (Service.kernel_key s) (working.view t) ≡ true
      → (kernel.delete_service (to_ipvs_service network s) t).1 ≡ none
  pub can_update :
      (s : Service) (t : kernel.Table)
      → IsService s
      → has_service (Service.kernel_key s) (working.view t) ≡ true
      → (kernel.update_service (to_ipvs_service network s) t).1 ≡ none
  pub added_with :
      (s : Service) (k j : String) (t : kernel.Table)
      → IsService s
      → has_service (Service.kernel_key s) (working.view t) ≡ false
      → has_destination j
          (destinations_at k (working.view (kernel.add_service (to_ipvs_service network s) t).0))
        ≡ (if Service.kernel_key s == k
            then has_destination j s.destinations
            else has_destination j (destinations_at k (working.view t)))
  pub deleted_apart :
      (s : Service) (k j : String) (t : kernel.Table)
      → IsService s
      → Service.kernel_key s ≢ k
      → has_destination j
          (destinations_at k (working.view (kernel.delete_service (to_ipvs_service network s) t).0))
        ≡ has_destination j (destinations_at k (working.view t))
  pub updated_alone :
      (s : Service) (k j : String) (t : kernel.Table)
      → IsService s
      → has_destination j
          (destinations_at k (working.view (kernel.update_service (to_ipvs_service network s) t).0))
        ≡ has_destination j (destinations_at k (working.view t))
  pub add_apart :
      (s : Service) (d : Destination) (k j : String) (t : kernel.Table)
      → IsService s
      → Service.kernel_key s ≢ k
      → has_destination j (
          destinations_at k (
            working.view
              (kernel.add_destination
                (to_ipvs_service network s)
                (to_ipvs_destination network d)
                t).0))
        ≡ has_destination j (destinations_at k (working.view t))
  pub delete_apart :
      (s : Service) (d : Destination) (k j : String) (t : kernel.Table)
      → IsService s
      → Service.kernel_key s ≢ k
      → has_destination j (
          destinations_at k (
            working.view
              (kernel.delete_destination
                (to_ipvs_service network s)
                (to_ipvs_destination network d)
                t).0))
        ≡ has_destination j (destinations_at k (working.view t))
  pub update_apart :
      (s : Service) (d : Destination) (k j : String) (t : kernel.Table)
      → IsService s
      → Service.kernel_key s ≢ k
      → has_destination j (
          destinations_at k (
            working.view
              (kernel.update_destination
                (to_ipvs_service network s)
                (to_ipvs_destination network d)
                t).0))
        ≡ has_destination j (destinations_at k (working.view t))

module _ (network : Network) (kernel : Kernel network) (IsService : Service → Type 0)
    (IsDestination : Destination → Type 0) (working : WorkingTable network kernel IsService)
    (whole : WholeTable network kernel IsService IsDestination working) where
  open kernel use {Table}
  open working use {view, added, deleted}
  open whole use {can_add, can_delete, added_with, deleted_apart}

  abbrev pub holds : String → Run network kernel → Bool
  holds k r = has_service k (view r.0)

  -- Whether the service with the key `k` has the destination with the key `j`.
  abbrev pub held : String → String → Run network kernel → Bool
  held k j r = has_destination j (destinations_at k (view r.0))

  pub each_service-adds_with :
      (what : String) (ss : List Service) (r : Run network kernel)
      → All IsService ss
      → HasDistinctKeys Service.kernel_key ss
      → ((k : String) → has_service k ss ≡ true → holds k r ≡ false)
      → ((each_service network kernel what kernel.add_service ss r).1 ≡ r.1)
        × ((k j : String)
            → held k j (each_service network kernel what kernel.add_service ss r)
              ≡ (if has_service k ss then has_destination j (destinations_at k ss) else held k j r))
  unfolding each_service
  each_service-adds_with what [] r valid distinct absent = (refl, λ k j. refl)
  each_service-adds_with what (s ∷ ss) r valid distinct absent =
      let key = Service.kernel_key s in
      let free = absent key (ground (arith, eq_iff key key)) in
      let (clean, after) =
        each_service-adds_with what ss _ valid.1 distinct.1
          (λ j m. ground (arith, added s j r.0 valid.0 free, absent j, eq_iff key j, distinct.0)) in
      (
        clean ∙ ap (noted r.1 what (kernel.show_service s)) (can_add s r.0 valid.0 free),
        λ k j.
            after k j ∙ ground (arith, added_with s k j r.0 valid.0 free, eq_iff key k, distinct.0),
      )

  pub each_service-deletes_apart :
      (what : String) (ss : List Service) (r : Run network kernel)
      → All IsService ss
      → HasDistinctKeys Service.kernel_key ss
      → ((k : String) → has_service k ss ≡ true → holds k r ≡ true)
      → ((each_service network kernel what kernel.delete_service ss r).1 ≡ r.1)
        × ((k j : String)
            → has_service k ss ≡ false
            → held k j (each_service network kernel what kernel.delete_service ss r) ≡ held k j r)
  unfolding each_service
  each_service-deletes_apart what [] r valid distinct present = (refl, λ k j h. refl)
  each_service-deletes_apart what (s ∷ ss) r valid distinct present =
      let key = Service.kernel_key s in
      let there = present key (ground (arith, eq_iff key key)) in
      let (clean, after) =
        each_service-deletes_apart what ss _ valid.1 distinct.1
          (λ j m. ground (arith, deleted s j r.0 valid.0, present j, eq_iff key j, distinct.0)) in
      (
        clean ∙ ap (noted r.1 what (kernel.show_service s)) (can_delete s r.0 valid.0 there),
        λ k j h.
            after k j (ground (arith, h))
            ∙ deleted_apart s k j r.0 valid.0 (λ e. ground (arith, h, e, eq_iff key k)),
      )
