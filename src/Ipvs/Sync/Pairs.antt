-- ===== src/Ipvs/Sync/Pairs.antt =====
-- The services that stay: each gets exactly the wanted destinations, and the others keep theirs.
use fusis.Prelude.{
  String, ◌≡◌, ◌≢◌, refl, sym, ap, ◌∙◌, ◌==◌, eq_iff, List, [], ◌∷◌, map, Option, Bool, true, All,
  arith, if◌then◌else◌, String-cases, inl, inr,
}
use fusis.Types.{Error}
use fusis.Types.Service
use fusis.Types.Service.{Service}
use fusis.Types.Destination
use fusis.Types.Destination.{Destination}
use fusis.Ipvs.Structs.{
  Network, KernelService, KernelDestination, to_ipvs_service, to_ipvs_destination,
}
use fusis.Ipvs.Sync.{
  Kernel, Run, each_destination, merge_destinations, merge_services, destination_plan, noted,
}
use fusis.Ipvs.Sync.Converges.{has_service, WorkingTable, merge_services-holds}
use fusis.Ipvs.Sync.Destinations.{has_destination, each_destination-keeps}
use fusis.Ipvs.Sync.Merging.{merge_destinations-merges}
use fusis.Ipvs.Sync.Table.{destinations_at, WholeTable, holds, held}
use fusis.Diff.{Plan}
use fusis.Diff.Laws.{mentions, HasDistinctKeys, merged_key}

abbrev pub pair_key : Service × Service → String
pair_key = merged_key Service.kernel_key Service.kernel_key

module _ (network : Network) (kernel : Kernel network) (IsService : Service → Type 0)
    (IsDestination : Destination → Type 0) (working : WorkingTable network kernel IsService)
    (whole : WholeTable network kernel IsService IsDestination working) where
  open kernel use {Table}
  open working use {view}
  open whole use {
    serving, is_served, kept_at, can_update, updated_alone, add_apart, delete_apart, update_apart,
  }

  -- A service that was read from the table, and the service that is wanted in its place.
  pub record IsPair (pair : Service × Service) : Type 0 where
    pub same_key : Service.kernel_key pair.0 ≡ Service.kernel_key pair.1
    pub is_service : IsService pair.1
    pub new_destinations : All IsDestination pair.1.destinations
    pub old_destinations : All IsDestination pair.0.destinations
    pub old_distinct : HasDistinctKeys Destination.kernel_key pair.0.destinations

  abbrev at : String → String → Run network kernel → Bool
  at k j r = held network kernel IsService IsDestination working whole k j r

  abbrev there : String → Run network kernel → Bool
  there k r = holds network kernel IsService IsDestination working whole k r

  each_destination-apart :
      (what : String)
      (change : KernelService network → KernelDestination network → Table → Table × Option Error)
      (s : Service) (k j : String)
      → ((d : Destination) (t : Table)
          → has_destination j (
              destinations_at k
                (view (change (to_ipvs_service network s) (to_ipvs_destination network d) t).0))
            ≡ has_destination j (destinations_at k (view t)))
      → (ds : List Destination) (r : Run network kernel)
      → at k j (each_destination network kernel what change s ds r) ≡ at k j r
  each_destination-apart what change s k j h ds r =
      each_destination-keeps network kernel what change s
        (λ t. has_destination j (destinations_at k (view t)) ≡ at k j r) (λ d t p. h d t ∙ p) ds r
        refl

  merge_destinations-apart :
      (s : Service) (plan : Plan Destination Destination) (r : Run network kernel) (k j : String)
      → IsService s
      → Service.kernel_key s ≢ k
      → at k j (merge_destinations network kernel s plan r) ≡ at k j r
  unfolding merge_destinations
  merge_destinations-apart s plan r k j valid ne =
      each_destination-apart _ kernel.update_destination s k j
        (λ d t. update_apart s d k j t valid ne) _ _
      ∙ (each_destination-apart _ kernel.delete_destination s k j
            (λ d t. delete_apart s d k j t valid ne) _ _
          ∙ each_destination-apart _ kernel.add_destination s k j
              (λ d t. add_apart s d k j t valid ne) _ _)

  -- One round of the loop over the services that stay.
  merge_services-one :
      (old new : Service) (r : Run network kernel)
      → IsPair (old, new)
      → there (Service.kernel_key old) r ≡ true
      → ((j : String) → at (Service.kernel_key old) j r ≡ has_destination j old.destinations)
      → ((merge_services network kernel ((old, new) ∷ []) r).1 ≡ r.1)
        × ((k j : String)
            → at k j (merge_services network kernel ((old, new) ∷ []) r) ≡ (
                if Service.kernel_key old == k
                then has_destination j new.destinations
                else at k j r))
  unfolding merge_services
  merge_services-one old new r pair present start =
      let key = Service.kernel_key new in
      let same = pair.same_key in
      let valid = pair.is_service in
      let found : has_service key (view r.0) ≡ true = rw (← same) present in
      let t1 = (kernel.update_service (to_ipvs_service network new) r.0).0 in
      let stays : has_service key (view t1) ≡ true = working.updated new key r.0 ∙ found in
      let works = serving new valid in
      let errors =
        noted r.1 "updating service" (kernel.show_service new)
          (kernel.update_service (to_ipvs_service network new) r.0).1 in
      let (clean, exact) =
        merge_destinations-merges network kernel new IsDestination works old t1 errors
          (is_served new valid t1 stays)
          (λ j.
            sym (start j)
            ∙ (ap (λ k. at k j r) same
                ∙ (sym (updated_alone new key j r.0 valid)
                    ∙ ap (has_destination j) (sym (kept_at new valid t1)))))
          pair.old_distinct pair.old_destinations pair.new_destinations in
      (
        clean
            ∙ ap (noted r.1 "updating service" (kernel.show_service new))
                (can_update new r.0 valid found),
        λ k j. elim (String-cases (Service.kernel_key old) k) [
          | inl e ↦
              ap (λ i. at i j (merge_services network kernel ((old, new) ∷ []) r)) (sym e ∙ same)
              ∙ (ap (has_destination j) (sym (kept_at new valid _))
                  ∙ (exact j ∙ ground (arith, e, eq_iff (Service.kernel_key old) k)))
          | inr e ↦
              merge_destinations-apart new (destination_plan old new) (t1, errors) k j valid
                (λ p. e (same ∙ p))
              ∙ (updated_alone new k j r.0 valid
                  ∙ ground (arith, e, eq_iff (Service.kernel_key old) k))
        ],
      )

  -- The loop over the services that stay.
  pub merge_services-merges :
      (pairs : List (Service × Service)) (r : Run network kernel)
      → All IsPair pairs
      → HasDistinctKeys pair_key pairs
      → ((k : String) → mentions pair_key k pairs ≡ true → there k r ≡ true)
      → ((k j : String)
          → mentions pair_key k pairs ≡ true
          → at k j r ≡ has_destination j (destinations_at k (map (λ pair. pair.0) pairs)))
      → ((merge_services network kernel pairs r).1 ≡ r.1)
        × ((k j : String)
            → at k j (merge_services network kernel pairs r) ≡ (
                if mentions pair_key k pairs
                then has_destination j (destinations_at k (map (λ pair. pair.1) pairs))
                else at k j r))
  unfolding merge_services
  merge_services-merges [] r all distinct present start = (refl, λ k j. refl)
  merge_services-merges ((old, new) ∷ pairs) r all distinct present start =
      let key = Service.kernel_key old in
      let r1 = merge_services network kernel ((old, new) ∷ []) r in
      let here = eq_iff key key in
      let (clean1, after1) =
        merge_services-one old new r all.0 (present key (ground (arith, here)))
          (λ j. start key j (ground (arith, here)) ∙ ground (arith, here)) in
      let stays = merge_services-holds network kernel IsService working ((old, new) ∷ []) r in
      let (clean2, after2) =
        merge_services-merges pairs r1 all.1 distinct.1
          (λ k m. stays k ∙ present k (ground (arith, m)))
          (λ k j m. after1 k j ∙ ground (arith, start k j, m, distinct.0, eq_iff key k)) in
      (
        clean2 ∙ clean1,
        λ k j. after2 k j ∙ ground (arith, after1 k j, distinct.0, eq_iff key k, all.0.same_key),
      )
