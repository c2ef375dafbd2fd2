-- ===== src/Ipvs/Sync/Loops.antt =====
-- The three loops of `SyncState` over the services, and what they leave in the table.
use mathlib.Core.Path.{subst}
use fusis.Prelude.{String, ◌≡◌, ◌∙◌, List, [], ◌∷◌, map, true, not, ◌&&◌, All, arith, if◌then◌else◌}
use fusis.GoMap.{values}
use fusis.Types.Service
use fusis.Types.Service.{Service}
use fusis.Types.Destination
use fusis.Types.Destination.{Destination}
use fusis.Ipvs.State.{FusisState, get_services}
use fusis.Ipvs.Structs.{Network}
use fusis.Ipvs.Sync.{Kernel, Run, each_service, merge_services, service_plan}
use fusis.Ipvs.Sync.Converges.{has_service, WorkingTable, each_service-adds, each_service-deletes}
use fusis.Ipvs.Sync.Destinations.{has_destination}
use fusis.Ipvs.Sync.Table.{
  destinations_at, IsPlaced, distinct-IsPlaced, placed_at, WholeTable, each_service-adds_with,
  each_service-deletes_apart,
}
use fusis.Ipvs.Sync.Pairs.{pair_key, IsPair, merge_services-merges}
use fusis.Diff.{Plan}
use fusis.Diff.Laws.{mentions, HasDistinctKeys, diff-partition}
use fusis.Diff.Merged.{Matches, merged-Matches, news_of-All, news_of-mentions}
use fusis.Diff.Olds.{olds_of, olds_of-mentions, merged_olds-All, merged-HasDistinctKeys}
use fusis.Diff.Parts.{added-HasDistinctKeys, added-All, deleted-HasDistinctKeys, removed-All}

module _ (network : Network) (kernel : Kernel network) (IsService : Service → Type 0)
    (IsDestination : Destination → Type 0) (working : WorkingTable network kernel IsService)
    (whole : WholeTable network kernel IsService IsDestination working) where
  open kernel use {Table}
  open working use {view, no_doubles, stored, can_list, can_read}
  open whole use {serving, kept_at}

  -- The services that are wanted, from the list of all of them.
  abbrev pub IsWanted : List Service → Service → Type 0
  IsWanted news s = IsService s × All IsDestination s.destinations × IsPlaced news s

  -- The services that were read, from the list of all of them.
  abbrev IsRead : List Service → Service → Type 0
  IsRead olds s =
      All IsDestination s.destinations
      × HasDistinctKeys Destination.kernel_key s.destinations
      × IsPlaced olds s

  pub wanted :
      (news l : List Service)
      → All IsService l
      → All (λ s. All IsDestination s.destinations) l
      → All (IsPlaced news) l
      → All (IsWanted news) l
  wanted news [] hs ds ps = tt
  wanted news (s ∷ l) hs ds ps = ((hs.0, ds.0, ps.0), wanted news l hs.1 ds.1 ps.1)

  read :
      (t : Table) (l : List Service)
      → All IsService l
      → All (IsPlaced (view t)) l
      → All (IsRead (view t)) l
  read t [] hs ps = tt
  read t (s ∷ l) hs ps =
      let works = serving s hs.0 in
      let same : works.kept t ≡ s.destinations = kept_at s hs.0 t ∙ ps.0 in
      (
        (
          subst (λ ds. All IsDestination ds) same (works.stored t),
          subst (λ ds. HasDistinctKeys Destination.kernel_key ds) same (works.no_doubles t),
          ps.0,
        ),
        read t l hs.1 ps.1,
      )

  wanted-IsPlaced : (news l : List Service) → All (IsWanted news) l → All (IsPlaced news) l
  wanted-IsPlaced news [] h = tt
  wanted-IsPlaced news (s ∷ l) h = (h.0.2, wanted-IsPlaced news l h.1)

  read-IsPlaced : (olds l : List Service) → All (IsRead olds) l → All (IsPlaced olds) l
  read-IsPlaced olds [] h = tt
  read-IsPlaced olds (s ∷ l) h = (h.0.2, read-IsPlaced olds l h.1)

  wanted-IsService : (news l : List Service) → All (IsWanted news) l → All IsService l
  wanted-IsService news [] h = tt
  wanted-IsService news (s ∷ l) h = (h.0.0, wanted-IsService news l h.1)

  are_pairs :
      (olds news : List Service) (pairs : List (Service × Service))
      → All (Matches Service.kernel_key Service.kernel_key (IsWanted news)) pairs
      → All (IsRead olds) (olds_of Service.kernel_key Service.kernel_key pairs)
      → All (IsPair network kernel IsService IsDestination working whole) pairs
  are_pairs olds news [] hs rs = tt
  are_pairs olds news (pair ∷ pairs) hs rs = (
    record {
      same_key = hs.0.0;
      is_service = hs.0.1.0;
      new_destinations = hs.0.1.1;
      old_destinations = rs.0.0;
      old_distinct = rs.0.1;
    },
    are_pairs olds news pairs hs.1 rs.1,
  )

  module _ (s : FusisState) (t : Table)
      (valid : All (IsWanted (get_services s)) (get_services s)) where
    abbrev olds : List Service
    olds = view t

    abbrev news : List Service
    news = get_services s

    abbrev plan : Plan Service Service
    plan = service_plan olds s

    abbrev first : Run network kernel
    first =
        each_service network kernel "adding service" kernel.add_service (values plan.to_add) (t, [])

    abbrev second : Run network kernel
    second =
        each_service network kernel "deleting service" kernel.delete_service plan.to_remove first

    parts :
        (k : String)
        → (has_service k (values plan.to_add) ≡ (has_service k news && not (has_service k olds)))
          × (has_service k plan.to_remove ≡ (has_service k olds && not (has_service k news)))
          × (mentions pair_key k plan.to_merge ≡ (has_service k olds && has_service k news))
    parts k = diff-partition Service.kernel_key Service.kernel_key k olds news (no_doubles t)

    to_add-IsWanted : All (IsWanted news) (values plan.to_add)
    to_add-IsWanted =
        added-All Service.kernel_key Service.kernel_key olds news (IsWanted news) valid

    -- After the loops that add and delete, the wanted services are there, the new ones with their
    -- destinations, and the others with those that they had.
    after_second :
        (second.1 ≡ [])
        × ((k : String) → has_service k (view second.0) ≡ has_service k news)
        × ((k j : String)
            → has_service k news ≡ true
            → has_destination j (destinations_at k (view second.0))
              ≡ has_destination j (destinations_at k (if has_service k olds then olds else news)))
    after_second =
        let key = Service.kernel_key in
        let are_services = wanted-IsService news (values plan.to_add) to_add-IsWanted in
        let once = added-HasDistinctKeys key key olds news in
        let goes = removed-All key key olds news IsService (stored t) in
        let (clean1, after1) =
          each_service-adds_with network kernel IsService IsDestination working whole
            "adding service" (values plan.to_add) (t, []) are_services once
            (λ k m. ground (arith, (parts k).0, m)) in
        let now1 =
          each_service-adds network kernel IsService working "adding service" (values plan.to_add)
            (t, []) are_services once (λ k m. ground (arith, (parts k).0, m)) in
        let (clean2, after2) =
          each_service-deletes_apart network kernel IsService IsDestination working whole
            "deleting service" plan.to_remove first goes
            (deleted-HasDistinctKeys key key olds news (no_doubles t))
            (λ k m. now1 k ∙ ground (arith, (parts k).0, (parts k).1, m)) in
        let now2 =
          each_service-deletes network kernel IsService working "deleting service" plan.to_remove
            first goes in
        (
          clean2 ∙ clean1,
          λ k. now2 k ∙ ground (arith, now1 k, (parts k).0, (parts k).1),
          λ k j m.
              after2 k j (ground (arith, (parts k).1, m))
              ∙ (after1 k j
                  ∙ ground (
                    arith,
                    (parts k).0,
                    m,
                    placed_at k news (values plan.to_add) (wanted-IsPlaced news _ to_add-IsWanted),
                  )),
        )

    to_merge-Matches :
        All (Matches Service.kernel_key Service.kernel_key (IsWanted news)) plan.to_merge
    to_merge-Matches =
        merged-Matches Service.kernel_key Service.kernel_key (IsWanted news) olds news valid

    to_merge-IsRead :
        All (IsRead olds) (olds_of Service.kernel_key Service.kernel_key plan.to_merge)
    to_merge-IsRead =
        merged_olds-All Service.kernel_key Service.kernel_key olds news (IsRead olds)
          (read t olds (stored t) (distinct-IsPlaced olds (no_doubles t)))

    old_of_pair :
        (k : String)
        → mentions pair_key k plan.to_merge ≡ true
        → destinations_at k (map (λ pair. pair.0) plan.to_merge) ≡ destinations_at k olds
    old_of_pair k m =
        placed_at k olds _ (read-IsPlaced olds _ to_merge-IsRead)
          (olds_of-mentions Service.kernel_key Service.kernel_key k plan.to_merge ∙ m)

    new_of_pair :
        (k : String)
        → mentions pair_key k plan.to_merge ≡ true
        → destinations_at k (map (λ pair. pair.1) plan.to_merge) ≡ destinations_at k news
    new_of_pair k m =
        let key = Service.kernel_key in
        placed_at k news _
          (wanted-IsPlaced news _
            (news_of-All key key (IsWanted news) plan.to_merge to_merge-Matches))
          (news_of-mentions key key (IsWanted news) k plan.to_merge to_merge-Matches ∙ m)

    pub after_third :
        ((merge_services network kernel plan.to_merge second).1 ≡ [])
        × ((k j : String)
            → has_service k news ≡ true
            → has_destination j
                (destinations_at k (view (merge_services network kernel plan.to_merge second).0))
              ≡ has_destination j (destinations_at k news))
    after_third =
        let key = Service.kernel_key in
        let (clean, there, kept) = after_second in
        let (clean', after) =
          merge_services-merges network kernel IsService IsDestination working whole plan.to_merge
            second (are_pairs olds news plan.to_merge to_merge-Matches to_merge-IsRead)
            (merged-HasDistinctKeys key key olds news (no_doubles t))
            (λ k m. there k ∙ ground (arith, (parts k).2, m))
            (λ k j m.
              kept k j (ground (arith, (parts k).2, m))
              ∙ ground (arith, (parts k).2, m, old_of_pair k m)) in
        (
          clean' ∙ clean,
          λ k j m. after k j ∙ ground (arith, kept k j m, (parts k).2, m, new_of_pair k),
        )
