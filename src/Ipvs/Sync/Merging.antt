-- ===== src/Ipvs/Sync/Merging.antt =====
-- The three loops over the destinations of a service that stays leave exactly the wanted ones.
use fusis.Prelude.{
  String, ◌≡◌, refl, ap, ◌∙◌, eq_iff, List, [], ◌∷◌, map, Bool, true, false, not, ◌&&◌, ◌||◌, All,
  arith,
}
use fusis.GoMap.{values}
use fusis.Types.Service.{Service}
use fusis.Types.Destination
use fusis.Types.Destination.{Destination}
use fusis.Ipvs.Structs.{Network}
use fusis.Ipvs.Sync.{Kernel, Run, each_destination, merge_destinations, destination_plan, noted}
use fusis.Diff.Laws.{HasDistinctKeys, diff-partition}
use fusis.Diff.Merged.{merged-Matches, news_of-All, news_of-mentions}
use fusis.Diff.Parts.{added-HasDistinctKeys, added-All, deleted-HasDistinctKeys, removed-All}
use fusis.Ipvs.Sync.Destinations.{has_destination, WorkingService, each_destination-keeps}

module _ (network : Network) (kernel : Kernel network) (svc : Service)
    (IsStored : Destination → Type 0) (working : WorkingService network kernel svc IsStored) where
  open working use {
    serves, add_serves, delete_serves, update_serves, kept, no_doubles, stored, can_add, added,
    can_delete, deleted, can_update, updated,
  }

  abbrev holds : String → Run network kernel → Bool
  holds k r = has_destination k (kept r.0)

  each_destination-adds :
      (what : String) (ds : List Destination) (r : Run network kernel)
      → serves r.0
      → All IsStored ds
      → HasDistinctKeys Destination.kernel_key ds
      → ((k : String) → has_destination k ds ≡ true → holds k r ≡ false)
      → ((each_destination network kernel what kernel.add_destination svc ds r).1 ≡ r.1)
        × ((k : String)
            → holds k (each_destination network kernel what kernel.add_destination svc ds r)
              ≡ (has_destination k ds || holds k r))
  unfolding each_destination
  each_destination-adds what [] r there valid distinct absent = (refl, λ k. refl)
  each_destination-adds what (d ∷ ds) r there valid distinct absent =
      let key = Destination.kernel_key d in
      let free = absent key (ground (arith, eq_iff key key)) in
      let (clean, after) =
        each_destination-adds what ds _ (add_serves d r.0 there) valid.1 distinct.1 (λ j m.
          ground (arith, added d j r.0 there valid.0 free, absent j, eq_iff key j, distinct.0)) in
      (
        clean ∙ ap (noted r.1 what (kernel.show_destination d)) (can_add d r.0 there valid.0 free),
        λ k. after k ∙ ground (arith, added d k r.0 there valid.0 free, eq_iff key k),
      )

  each_destination-deletes :
      (what : String) (ds : List Destination) (r : Run network kernel)
      → serves r.0
      → All IsStored ds
      → HasDistinctKeys Destination.kernel_key ds
      → ((k : String) → has_destination k ds ≡ true → holds k r ≡ true)
      → ((each_destination network kernel what kernel.delete_destination svc ds r).1 ≡ r.1)
        × ((k : String)
            → holds k (each_destination network kernel what kernel.delete_destination svc ds r)
              ≡ (not (has_destination k ds) && holds k r))
  unfolding each_destination
  each_destination-deletes what [] r there valid distinct present = (refl, λ k. refl)
  each_destination-deletes what (d ∷ ds) r there valid distinct present =
      let key = Destination.kernel_key d in
      let known = present key (ground (arith, eq_iff key key)) in
      let (clean, after) =
        each_destination-deletes what ds _ (delete_serves d r.0 there) valid.1 distinct.1 (λ j m.
          ground
            (arith, deleted d j r.0 there valid.0 known, present j, eq_iff key j, distinct.0)) in
      (
        clean
            ∙ ap (noted r.1 what (kernel.show_destination d))
                (can_delete d r.0 there valid.0 known),
        λ k. after k ∙ ground (arith, deleted d k r.0 there valid.0 known, eq_iff key k),
      )

  each_destination-updates :
      (what : String) (ds : List Destination) (r : Run network kernel)
      → serves r.0
      → All IsStored ds
      → ((k : String) → has_destination k ds ≡ true → holds k r ≡ true)
      → ((each_destination network kernel what kernel.update_destination svc ds r).1 ≡ r.1)
        × ((k : String)
            → holds k (each_destination network kernel what kernel.update_destination svc ds r)
              ≡ holds k r)
  unfolding each_destination
  each_destination-updates what [] r there valid present = (refl, λ k. refl)
  each_destination-updates what (d ∷ ds) r there valid present =
      let key = Destination.kernel_key d in
      let known = present key (ground (arith, eq_iff key key)) in
      let (clean, after) =
        each_destination-updates what ds _ (update_serves d r.0 there) valid.1 (λ j m.
          updated d j r.0 there valid.0 known ∙ present j (ground (arith, m, eq_iff key j))) in
      (
        clean
            ∙ ap (noted r.1 what (kernel.show_destination d))
                (can_update d r.0 there valid.0 known),
        λ k. after k ∙ updated d k r.0 there valid.0 known,
      )

  -- The three loops, where the destinations that the plan was made for are those of the table by key.
  pub merge_destinations-merges :
      (old : Service) (t : kernel.Table) (errors : List String)
      → serves t
      → ((k : String) → has_destination k old.destinations ≡ has_destination k (kept t))
      → HasDistinctKeys Destination.kernel_key old.destinations
      → All IsStored old.destinations
      → All IsStored svc.destinations
      → ((merge_destinations network kernel svc (destination_plan old svc) (t, errors)).1 ≡ errors)
        × ((k : String)
            → has_destination k (
                kept
                  (merge_destinations network kernel svc (destination_plan old svc) (t, errors)).0)
              ≡ has_destination k svc.destinations)
  unfolding merge_destinations
  merge_destinations-merges old t errors there start distinct known valid =
      let key = Destination.kernel_key in
      let olds = old.destinations in
      let news = svc.destinations in
      let plan = destination_plan old svc in
      let parts = λ (k : String). diff-partition key key k olds news distinct in
      let pairs = merged-Matches key key IsStored olds news valid in
      let first =
        each_destination network kernel "adding destination" kernel.add_destination svc
          (values plan.to_add) (t, errors) in
      let second =
        each_destination network kernel "deleting destination" kernel.delete_destination svc
          plan.to_remove first in
      let there1 =
        each_destination-keeps network kernel "adding destination" kernel.add_destination svc serves
          add_serves (values plan.to_add) (t, errors) there in
      let there2 =
        each_destination-keeps network kernel "deleting destination" kernel.delete_destination svc
          serves delete_serves plan.to_remove first there1 in
      let (clean1, after1) =
        each_destination-adds "adding destination" (values plan.to_add) (t, errors) there
          (added-All key key olds news IsStored valid) (added-HasDistinctKeys key key olds news)
          (λ k m. ground (arith, start k, (parts k).0, m)) in
      let (clean2, after2) =
        each_destination-deletes "deleting destination" plan.to_remove first there1
          (removed-All key key olds news IsStored known)
          (deleted-HasDistinctKeys key key olds news distinct)
          (λ k m. after1 k ∙ ground (arith, start k, (parts k).0, (parts k).1, m)) in
      let (clean3, after3) =
        each_destination-updates "deleting destination" (map (λ pair. pair.1) plan.to_merge) second
          there2 (news_of-All key key IsStored plan.to_merge pairs)
          (λ k m.
            after2 k
            ∙ ground (
              arith,
              after1 k,
              start k,
              (parts k).0,
              (parts k).1,
              (parts k).2,
              news_of-mentions key key IsStored k plan.to_merge pairs,
              m,
            )) in
      (
        clean3 ∙ (clean2 ∙ clean1),
        λ k. after3 k ∙ (after2 k ∙ ground (arith, after1 k, start k, (parts k).0, (parts k).1)),
      )

  -- If a service stays whose destinations are read from the table, the table works for it, and the
  -- kernel keeps every wanted destination under its key, the three loops give no error, and the
  -- service then has, by kernel key, exactly the wanted destinations.
  pub merge_destinations-converges :
      (old : Service) (t : kernel.Table) (errors : List String)
      → serves t
      → old.destinations ≡ kept t
      → All IsStored svc.destinations
      → ((merge_destinations network kernel svc (destination_plan old svc) (t, errors)).1 ≡ errors)
        × ((k : String)
            → has_destination k (
                kept
                  (merge_destinations network kernel svc (destination_plan old svc) (t, errors)).0)
              ≡ has_destination k svc.destinations)
  merge_destinations-converges old t errors there read valid =
      merge_destinations-merges old t errors there (λ k. ap (has_destination k) read)
        (rw read (no_doubles t)) (rw read (stored t)) valid
