-- ===== src/Diff/Merged.antt =====
-- The pairs of a plan: both items of a pair have the same key.
use fusis.Prelude.{
  String, ◌≡◌, refl, ◌∙◌, ap, eq_iff, List, [], ◌∷◌, All, map, arith, sym, String-cases, inl, inr,
  Option, none, some,
}
use fusis.GoMap.{GoMap, lookup, values}
use fusis.GoMap.Laws.{KeyedBy, delete-KeyedBy}
use fusis.Diff.{Plan, scan, found_or_not, diff}
use fusis.Diff.Laws.{mentions, index-KeyedBy, merged_key}
use fusis.Diff.Parts.{index-All, delete-All, append-All}

module _ {A B : Type 0} (old_key : A → String) (new_key : B → String) (P : B → Type 0) where
  lookup-KeyedBy :
      (k : String) (b : B) (m : GoMap B)
      → KeyedBy new_key m
      → All P (values m)
      → lookup k m ≡ some b
      → (k ≡ new_key b) × P b
  unfolding lookup values
  lookup-KeyedBy k b [] h hs e = absurd (ground (arith, e))
  lookup-KeyedBy k b ((j, w) ∷ m) h hs e = elim (String-cases j k) [
    | inl same ↦
        let q : w ≡ b = ground (arith, e, same, eq_iff j k) in
        (sym same ∙ (h.0 ∙ ap new_key q), rw (← q) hs.0)
    | inr other ↦ lookup-KeyedBy k b m h.1 hs.1 (ground (arith, e, other, eq_iff j k))
  ]

  abbrev pub Matches : A × B → Type 0
  Matches pair = (old_key pair.0 ≡ new_key pair.1) × P pair.1

  scan-Matches :
      (olds : List A) (p : Plan A B)
      → KeyedBy new_key p.to_add
      → All P (values p.to_add)
      → All Matches p.to_merge
      → All Matches (scan old_key new_key olds p).to_merge
  unfolding scan
  scan-Matches [] p h hs r = r
  scan-Matches (a ∷ as') p h hs r =
      by_entry (lookup (old_key a) p.to_add) refl (λ q. scan-Matches as' q)
    where
      by_entry :
          (o : Option B)
          → lookup (old_key a) p.to_add ≡ o
          → ((q : Plan A B)
              → KeyedBy new_key q.to_add
              → All P (values q.to_add)
              → All Matches q.to_merge
              → All Matches (scan old_key new_key as' q).to_merge)
          → All Matches (scan old_key new_key as' (found_or_not old_key new_key a p o)).to_merge
      by_entry none e ih = ih _ h hs r
      by_entry (some b) e ih =
          ih _ (delete-KeyedBy new_key (old_key a) p.to_add h)
            (delete-All P (old_key a) p.to_add hs)
            (append-All Matches (a, b) p.to_merge r (lookup-KeyedBy (old_key a) b p.to_add h hs e))

  pub merged-Matches :
      (olds : List A) (news : List B)
      → All P news
      → All Matches (diff old_key new_key olds news).to_merge
  unfolding diff values
  merged-Matches olds news h =
      scan-Matches olds _ (index-KeyedBy old_key new_key news [] tt)
        (index-All old_key new_key P news [] h tt) tt

  abbrev pub news_of : List (A × B) → List B
  news_of = map (λ pair. pair.1)

  pub news_of-All : (pairs : List (A × B)) → All Matches pairs → All P (news_of pairs)
  news_of-All [] h = tt
  news_of-All (pair ∷ pairs) h = (h.0.1, news_of-All pairs h.1)

  pub news_of-mentions :
      (k : String) (pairs : List (A × B))
      → All Matches pairs
      → mentions new_key k (news_of pairs) ≡ mentions (merged_key old_key new_key) k pairs
  news_of-mentions k [] h = refl
  news_of-mentions k (pair ∷ pairs) h = rw (h.0.0) (rw (news_of-mentions k pairs h.1) refl)
