-- ===== src/Diff/Parts.antt =====
-- The parts of a plan have no key twice, and what holds of every new item holds of those to add.
use fusis.Prelude.{
  String, ◌≡◌, refl, ◌∙◌, eq_iff, List, [], ◌∷◌, ◌++◌, All, arith, Option, none, some, true, false,
}
use fusis.GoMap.{GoMap, lookup, insert, delete, values, has_key}
use fusis.GoMap.Laws.{KeyedBy, HasUniqueKeys, insert-HasUniqueKeys, delete-HasUniqueKeys}
use fusis.Diff.{Plan, index, scan, found_or_not, diff}
use fusis.Diff.Laws.{mentions, HasDistinctKeys, mentions-append, index-KeyedBy, scan-KeyedBy}

mentions-has_key :
    {B : Type 0} (key : B → String) (k : String) (m : GoMap B)
    → KeyedBy key m
    → mentions key k (values m) ≡ has_key k m
unfolding values has_key
mentions-has_key key k [] h = refl
mentions-has_key key k ((j, b) ∷ m) h = ground (arith, h.0, mentions-has_key key k m h.1)

pub values-HasDistinctKeys :
    {B : Type 0} (key : B → String) (m : GoMap B)
    → KeyedBy key m
    → HasUniqueKeys m
    → HasDistinctKeys key (values m)
unfolding values
values-HasDistinctKeys key [] h u = tt
values-HasDistinctKeys key ((j, b) ∷ m) h u =
    (mentions-has_key key (key b) m h.1 ∙ rw (← h.0) u.0, values-HasDistinctKeys key m h.1 u.1)

insert-All :
    {B : Type 0} (P : B → Type 0) (k : String) (b : B) (m : GoMap B)
    → P b
    → All P (values m)
    → All P (values (insert k b m))
unfolding insert values
insert-All P k b [] h hs = (h, tt)
insert-All P k b ((j, w) ∷ m) h hs = ground (arith, insert-All P k b m h hs.1)

pub delete-All :
    {B : Type 0} (P : B → Type 0) (k : String) (m : GoMap B)
    → All P (values m)
    → All P (values (delete k m))
unfolding delete values
delete-All P k [] hs = tt
delete-All P k ((j, w) ∷ m) hs = ground (arith, delete-All P k m hs.1)

pub distinct-append :
    {A : Type 0} (key : A → String) (a : A) (xs : List A)
    → HasDistinctKeys key xs
    → mentions key (key a) xs ≡ false
    → HasDistinctKeys key (xs ++ a ∷ [])
distinct-append key a [] h e = (refl, tt)
distinct-append key a (x ∷ xs) h e = ground (
  arith,
  distinct-append key a xs h.1,
  mentions-append key (key x) xs (a ∷ []),
  eq_iff (key x) (key a),
  eq_iff (key a) (key x),
  h.0,
)

pub append-All :
    {A : Type 0} (P : A → Type 0) (a : A) (xs : List A) → All P xs → P a → All P (xs ++ a ∷ [])
append-All P a [] hs h = (h, tt)
append-All P a (x ∷ xs) hs h = (hs.0, append-All P a xs hs.1 h)

module _ {A B : Type 0} (old_key : A → String) (new_key : B → String) where
  index-HasUniqueKeys :
      (news : List B) (m : GoMap B) → HasUniqueKeys m → HasUniqueKeys (index old_key new_key news m)
  unfolding index
  index-HasUniqueKeys [] m h = h
  index-HasUniqueKeys (b ∷ bs) m h =
      index-HasUniqueKeys bs (insert (new_key b) b m) (insert-HasUniqueKeys (new_key b) b m h)

  pub index-All :
      (P : B → Type 0) (news : List B) (m : GoMap B)
      → All P news
      → All P (values m)
      → All P (values (index old_key new_key news m))
  unfolding index
  index-All P [] m hs h = h
  index-All P (b ∷ bs) m hs h =
      index-All P bs (insert (new_key b) b m) hs.1 (insert-All P (new_key b) b m hs.0 h)

  -- What deleting a key keeps, the loop over the old items keeps.
  scan-keeps :
      (Q : GoMap B → Type 0)
      → ((k : String) (m : GoMap B) → Q m → Q (delete k m))
      → (olds : List A) (p : Plan A B) → Q p.to_add
      → Q (scan old_key new_key olds p).to_add
  unfolding scan
  scan-keeps Q keep [] p h = h
  scan-keeps Q keep (a ∷ as') p h =
      by_entry (lookup (old_key a) p.to_add) (λ q. scan-keeps Q keep as' q)
    where
      by_entry :
          (o : Option B)
          → ((q : Plan A B) → Q q.to_add → Q (scan old_key new_key as' q).to_add)
          → Q (scan old_key new_key as' (found_or_not old_key new_key a p o)).to_add
      by_entry none ih = ih _ h
      by_entry (some b) ih = ih _ (keep (old_key a) p.to_add h)

  removed-HasDistinctKeys :
      (olds : List A) (p : Plan A B)
      → HasDistinctKeys old_key olds
      → HasDistinctKeys old_key p.to_remove
      → ((k : String) → mentions old_key k olds ≡ true → mentions old_key k p.to_remove ≡ false)
      → HasDistinctKeys old_key (scan old_key new_key olds p).to_remove
  unfolding scan
  removed-HasDistinctKeys [] p h r apart = r
  removed-HasDistinctKeys (a ∷ as') p h r apart =
      by_entry (lookup (old_key a) p.to_add) (λ q. removed-HasDistinctKeys as' q h.1)
    where
      here : mentions old_key (old_key a) p.to_remove ≡ false
      here = apart (old_key a) (ground (arith, eq_iff (old_key a) (old_key a)))

      by_entry :
          (o : Option B)
          → ((q : Plan A B)
              → HasDistinctKeys old_key q.to_remove
              → ((k : String)
                  → mentions old_key k as' ≡ true
                  → mentions old_key k q.to_remove ≡ false)
              → HasDistinctKeys old_key (scan old_key new_key as' q).to_remove)
          → HasDistinctKeys old_key
              (scan old_key new_key as' (found_or_not old_key new_key a p o)).to_remove
      by_entry (some b) ih = ih _ r (λ k m. apart k (ground (arith, m)))
      by_entry none ih = ih _ (distinct-append old_key a p.to_remove r here) (λ k m. ground (
        arith,
        m,
        apart k,
        mentions-append old_key k p.to_remove (a ∷ []),
        eq_iff (old_key a) k,
        h.0,
      ))

  scan-removed-All :
      (P : A → Type 0) (olds : List A) (p : Plan A B)
      → All P olds
      → All P p.to_remove
      → All P (scan old_key new_key olds p).to_remove
  unfolding scan
  scan-removed-All P [] p h r = r
  scan-removed-All P (a ∷ as') p h r =
      by_entry (lookup (old_key a) p.to_add) (λ q. scan-removed-All P as' q h.1)
    where
      by_entry :
          (o : Option B)
          → ((q : Plan A B) → All P q.to_remove → All P (scan old_key new_key as' q).to_remove)
          → All P (scan old_key new_key as' (found_or_not old_key new_key a p o)).to_remove
      by_entry (some b) ih = ih _ r
      by_entry none ih = ih _ (append-All P a p.to_remove r h.0)

  module _ (olds : List A) (news : List B) where
    pub added-HasDistinctKeys :
        HasDistinctKeys new_key (values (diff old_key new_key olds news).to_add)
    unfolding diff
    added-HasDistinctKeys =
        values-HasDistinctKeys new_key _
          (scan-KeyedBy old_key new_key olds _ (index-KeyedBy old_key new_key news [] tt))
          (scan-keeps HasUniqueKeys (λ k m. delete-HasUniqueKeys k m) olds _
            (index-HasUniqueKeys news [] tt))

    pub added-All :
        (P : B → Type 0) → All P news → All P (values (diff old_key new_key olds news).to_add)
    unfolding diff values
    added-All P h =
        scan-keeps (λ m. All P (values m)) (λ k m. delete-All P k m) olds _
          (index-All P news [] h tt)

    pub deleted-HasDistinctKeys :
        HasDistinctKeys old_key olds
        → HasDistinctKeys old_key (diff old_key new_key olds news).to_remove
    unfolding diff
    deleted-HasDistinctKeys h = removed-HasDistinctKeys olds _ h tt (λ k m. refl)

    pub removed-All :
        (P : A → Type 0) → All P olds → All P (diff old_key new_key olds news).to_remove
    unfolding diff
    removed-All P h = scan-removed-All P olds _ h tt
