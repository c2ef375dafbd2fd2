-- ===== src/Diff/Laws.antt =====
-- What a plan holds: each key of the old and the new items falls under exactly one of its parts.
use fusis.Prelude.{
  String, ◌≡◌, refl, ◌∙◌, ◌==◌, eq_iff, List, [], ◌∷◌, ◌++◌, arith, if◌then◌else◌, Option, none,
  some, Bool, true, false, not, ◌&&◌, ◌||◌,
}
use fusis.GoMap.{GoMap, lookup, insert, values}
use fusis.GoMap.Laws.{KeyedBy, lookup-insert, lookup-delete, insert-KeyedBy, delete-KeyedBy}
use fusis.Diff.{Plan, index, scan, found_or_not, diff}

-- Some item of the list has the key.
abbrev pub mentions : {A : Type 0} → (A → String) → String → List A → Bool
mentions key k [] = false
mentions key k (a ∷ as') = if key a == k then true else mentions key k as'

-- No key stands twice in the list.
abbrev pub HasDistinctKeys : {A : Type 0} → (A → String) → List A → Type 0
HasDistinctKeys key [] = Unit
HasDistinctKeys key (a ∷ as') = (mentions key (key a) as' ≡ false) × HasDistinctKeys key as'

abbrev pub is_some : {A : Type 0} → Option A → Bool
is_some none = false
is_some (some a) = true

pub mentions-append :
    {A : Type 0} (key : A → String) (k : String) (xs ys : List A)
    → mentions key k (xs ++ ys) ≡ (mentions key k xs || mentions key k ys)
mentions-append key k [] ys = refl
mentions-append key k (x ∷ xs) ys = ground (arith, mentions-append key k xs ys)

module _ {A B : Type 0} (old_key : A → String) (new_key : B → String) where
  lookup-index :
      (k : String) (news : List B) (m : GoMap B)
      → is_some (lookup k (index old_key new_key news m))
        ≡ (mentions new_key k news || is_some (lookup k m))
  unfolding index
  lookup-index k [] m = refl
  lookup-index k (b ∷ bs) m =
      lookup-index k bs (insert (new_key b) b m)
      ∙ ground (arith, lookup-insert (new_key b) k b m, eq_iff (new_key b) k)

  pub index-KeyedBy :
      (news : List B) (m : GoMap B)
      → KeyedBy new_key m
      → KeyedBy new_key (index old_key new_key news m)
  unfolding index
  index-KeyedBy [] m h = h
  index-KeyedBy (b ∷ bs) m h =
      index-KeyedBy bs (insert (new_key b) b m) (insert-KeyedBy new_key b m h)

  pub scan-KeyedBy :
      (olds : List A) (p : Plan A B)
      → KeyedBy new_key p.to_add
      → KeyedBy new_key (scan old_key new_key olds p).to_add
  unfolding scan
  scan-KeyedBy [] p h = h
  scan-KeyedBy (a ∷ as') p h = by_entry (lookup (old_key a) p.to_add) (λ q. scan-KeyedBy as' q)
    where
      by_entry :
          (o : Option B)
          → ((q : Plan A B)
              → KeyedBy new_key q.to_add
              → KeyedBy new_key (scan old_key new_key as' q).to_add)
          → KeyedBy new_key (scan old_key new_key as' (found_or_not old_key new_key a p o)).to_add
      by_entry none ih = ih _ h
      by_entry (some b) ih = ih _ (delete-KeyedBy new_key (old_key a) p.to_add h)

  -- The map after the loop has lost the keys of the old items.
  lookup-scan :
      (k : String) (olds : List A) (p : Plan A B)
      → lookup k (scan old_key new_key olds p).to_add
        ≡ (if mentions old_key k olds then none else lookup k p.to_add)
  unfolding scan
  lookup-scan k [] p = refl
  lookup-scan k (a ∷ as') p = by_entry (lookup (old_key a) p.to_add) refl (λ q. lookup-scan k as' q)
    where
      by_entry :
          (o : Option B)
          → lookup (old_key a) p.to_add ≡ o
          → ((q : Plan A B)
              → lookup k (scan old_key new_key as' q).to_add
                ≡ (if mentions old_key k as' then none else lookup k q.to_add))
          → lookup k (scan old_key new_key as' (found_or_not old_key new_key a p o)).to_add
            ≡ (if mentions old_key k (a ∷ as') then none else lookup k p.to_add)
      by_entry none e ih = ih _ ∙ ground (arith, e, eq_iff (old_key a) k)
      by_entry (some b) e ih =
          ih _ ∙ ground (arith, lookup-delete (old_key a) k p.to_add, eq_iff (old_key a) k)

  -- An old item is removed if its key is not wanted.
  removed-scan :
      (k : String) (olds : List A) (p : Plan A B)
      → HasDistinctKeys old_key olds
      → mentions old_key k (scan old_key new_key olds p).to_remove ≡ (
          mentions old_key k p.to_remove
          || (mentions old_key k olds && not (is_some (lookup k p.to_add))))
  unfolding scan
  removed-scan k [] p h = ground arith
  removed-scan k (a ∷ as') p h =
      by_entry (lookup (old_key a) p.to_add) refl (λ q. removed-scan k as' q h.1)
    where
      by_entry :
          (o : Option B)
          → lookup (old_key a) p.to_add ≡ o
          → ((q : Plan A B)
              → mentions old_key k (scan old_key new_key as' q).to_remove ≡ (
                  mentions old_key k q.to_remove
                  || (mentions old_key k as' && not (is_some (lookup k q.to_add)))))
          → mentions old_key k
              (scan old_key new_key as' (found_or_not old_key new_key a p o)).to_remove
            ≡ (mentions old_key k p.to_remove
                || (mentions old_key k (a ∷ as') && not (is_some (lookup k p.to_add))))
      by_entry none e ih =
          ih _
          ∙ ground (arith, e, eq_iff (old_key a) k, mentions-append old_key k p.to_remove (a ∷ []))
      by_entry (some b) e ih =
          ih _ ∙ ground (arith, e, h.0, lookup-delete (old_key a) k p.to_add, eq_iff (old_key a) k)

  abbrev pub merged_key : A × B → String
  merged_key pair = old_key pair.0

  -- An old item is merged if its key is wanted.
  merged-scan :
      (k : String) (olds : List A) (p : Plan A B)
      → HasDistinctKeys old_key olds
      → mentions merged_key k (scan old_key new_key olds p).to_merge ≡ (
          mentions merged_key k p.to_merge
          || (mentions old_key k olds && is_some (lookup k p.to_add)))
  unfolding scan
  merged-scan k [] p h = ground arith
  merged-scan k (a ∷ as') p h =
      by_entry (lookup (old_key a) p.to_add) refl (λ q. merged-scan k as' q h.1)
    where
      by_entry :
          (o : Option B)
          → lookup (old_key a) p.to_add ≡ o
          → ((q : Plan A B)
              → mentions merged_key k (scan old_key new_key as' q).to_merge ≡ (
                  mentions merged_key k q.to_merge
                  || (mentions old_key k as' && is_some (lookup k q.to_add))))
          → mentions merged_key k
              (scan old_key new_key as' (found_or_not old_key new_key a p o)).to_merge
            ≡ (mentions merged_key k p.to_merge
                || (mentions old_key k (a ∷ as') && is_some (lookup k p.to_add)))
      by_entry none e ih = ih _ ∙ ground (arith, e, eq_iff (old_key a) k)
      by_entry (some b) e ih =
          ih _
          ∙ ground (
            arith,
            e,
            h.0,
            lookup-delete (old_key a) k p.to_add,
            eq_iff (old_key a) k,
            mentions-append merged_key k p.to_merge ((a, b) ∷ []),
          )

  pub mentions-values :
      (k : String) (m : GoMap B)
      → KeyedBy new_key m
      → mentions new_key k (values m) ≡ is_some (lookup k m)
  unfolding values lookup
  mentions-values k [] h = refl
  mentions-values k ((j, b) ∷ m) h = ground (arith, mentions-values k m h.1, h.0, eq_iff j k)

  -- For old items with distinct keys, each key falls under one part of the plan: it is added if only
  -- the new items have it, removed if only the old ones do, and merged if both do.
  pub diff-partition :
      (k : String) (olds : List A) (news : List B)
      → HasDistinctKeys old_key olds
      → (mentions new_key k (values (diff old_key new_key olds news).to_add)
          ≡ (mentions new_key k news && not (mentions old_key k olds)))
        × (mentions old_key k (diff old_key new_key olds news).to_remove
            ≡ (mentions old_key k olds && not (mentions new_key k news)))
        × (mentions merged_key k (diff old_key new_key olds news).to_merge
            ≡ (mentions old_key k olds && mentions new_key k news))
  unfolding diff lookup
  diff-partition k olds news h =
      let start : Plan A B = record {
        to_add = index old_key new_key news [];
        to_remove = [];
        to_merge = [];
      } in
      let wanted = lookup-index k news [] in
      (
        mentions-values k _ (scan-KeyedBy olds start (index-KeyedBy news [] tt))
            ∙ ground (arith, lookup-scan k olds start, wanted),
        removed-scan k olds start h ∙ ground (arith, wanted),
        merged-scan k olds start h ∙ ground (arith, wanted),
      )
