-- ===== src/Diff/Olds.antt =====
-- The old items of the pairs of a plan.
use fusis.Prelude.{
  String, ◌≡◌, refl, eq_iff, List, [], ◌∷◌, All, map, arith, Option, none, some, true, false,
}
use fusis.GoMap.{lookup}
use fusis.Diff.{Plan, scan, found_or_not, diff}
use fusis.Diff.Laws.{mentions, HasDistinctKeys, mentions-append, merged_key}
use fusis.Diff.Parts.{append-All, distinct-append}

module _ {A B : Type 0} (old_key : A → String) (new_key : B → String) where
  abbrev pub olds_of : List (A × B) → List A
  olds_of = map (λ pair. pair.0)

  pub olds_of-mentions :
      (k : String) (pairs : List (A × B))
      → mentions old_key k (olds_of pairs) ≡ mentions (merged_key old_key new_key) k pairs
  olds_of-mentions k [] = refl
  olds_of-mentions k (pair ∷ pairs) = rw (olds_of-mentions k pairs) refl

  pub olds_of-All :
      (P : A → Type 0) (pairs : List (A × B)) → All (λ pair. P pair.0) pairs → All P (olds_of pairs)
  olds_of-All P [] h = tt
  olds_of-All P (pair ∷ pairs) h = (h.0, olds_of-All P pairs h.1)

  scan-merged-All :
      (P : A → Type 0) (olds : List A) (p : Plan A B)
      → All P olds
      → All (λ pair. P pair.0) p.to_merge
      → All (λ pair. P pair.0) (scan old_key new_key olds p).to_merge
  unfolding scan
  scan-merged-All P [] p h r = r
  scan-merged-All P (a ∷ as') p h r =
      by_entry (lookup (old_key a) p.to_add) (λ q. scan-merged-All P as' q h.1)
    where
      by_entry :
          (o : Option B)
          → ((q : Plan A B)
              → All (λ pair. P pair.0) q.to_merge
              → All (λ pair. P pair.0) (scan old_key new_key as' q).to_merge)
          → All
              (λ pair. P pair.0)
              (scan old_key new_key as' (found_or_not old_key new_key a p o)).to_merge
      by_entry none ih = ih _ r
      by_entry (some b) ih = ih _ (append-All (λ pair. P pair.0) (a, b) p.to_merge r h.0)

  scan-merged-HasDistinctKeys :
      (olds : List A) (p : Plan A B)
      → HasDistinctKeys old_key olds
      → HasDistinctKeys (merged_key old_key new_key) p.to_merge
      → ((k : String)
          → mentions old_key k olds ≡ true
          → mentions (merged_key old_key new_key) k p.to_merge ≡ false)
      → HasDistinctKeys (merged_key old_key new_key) (scan old_key new_key olds p).to_merge
  unfolding scan
  scan-merged-HasDistinctKeys [] p h r apart = r
  scan-merged-HasDistinctKeys (a ∷ as') p h r apart =
      by_entry (lookup (old_key a) p.to_add) (λ q. scan-merged-HasDistinctKeys as' q h.1)
    where
      here : mentions (merged_key old_key new_key) (old_key a) p.to_merge ≡ false
      here = apart (old_key a) (ground (arith, eq_iff (old_key a) (old_key a)))

      by_entry :
          (o : Option B)
          → ((q : Plan A B)
              → HasDistinctKeys (merged_key old_key new_key) q.to_merge
              → ((k : String)
                  → mentions old_key k as' ≡ true
                  → mentions (merged_key old_key new_key) k q.to_merge ≡ false)
              → HasDistinctKeys (merged_key old_key new_key) (scan old_key new_key as' q).to_merge)
          → HasDistinctKeys
              (merged_key old_key new_key)
              (scan old_key new_key as' (found_or_not old_key new_key a p o)).to_merge
      by_entry none ih = ih _ r (λ k m. apart k (ground (arith, m)))
      by_entry (some b) ih =
          ih _ (distinct-append (merged_key old_key new_key) (a, b) p.to_merge r here) (λ k m.
            ground (
              arith,
              m,
              apart k,
              mentions-append (merged_key old_key new_key) k p.to_merge ((a, b) ∷ []),
              eq_iff (old_key a) k,
              h.0,
            ))

  module _ (olds : List A) (news : List B) where
    pub merged_olds-All :
        (P : A → Type 0) → All P olds → All P (olds_of (diff old_key new_key olds news).to_merge)
    unfolding diff
    merged_olds-All P h = olds_of-All P _ (scan-merged-All P olds _ h tt)

    -- No two pairs of a plan have one key.
    pub merged-HasDistinctKeys :
        HasDistinctKeys old_key olds
        → HasDistinctKeys (merged_key old_key new_key) (diff old_key new_key olds news).to_merge
    unfolding diff
    merged-HasDistinctKeys h = scan-merged-HasDistinctKeys olds _ h tt (λ k m. refl)
