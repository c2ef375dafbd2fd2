-- ===== src/GoMap/Laws.antt =====
-- The laws of maps that the components use, and the invariant that no key stands twice.
use fusis.Prelude.{
  String, ◌≡◌, refl, none, some, true, false, [], ◌∷◌, Memᴰ, arith, ◌==◌, eq_iff, eq_false,
  String-cases, inl, inr, if◌then◌else◌,
}
use fusis.GoMap.{GoMap, lookup, insert, delete, values, has_key}

module _ {ℓ} {V : Type ℓ} where
  -- A lookup after an insertion sees the new value under its key and the old map elsewhere.
  pub lookup-insert :
      (key other : String) (value : V) (entries : GoMap V)
      → lookup other (insert key value entries)
        ≡ (if key == other then some value else lookup other entries)
  unfolding lookup insert
  lookup-insert key other value [] = refl
  lookup-insert key other value ((at, old) ∷ entries) = ground (
    arith,
    lookup-insert key other value entries,
    eq_iff at key,
    eq_iff at other,
    eq_iff key other,
  )

  -- A lookup after a deletion sees nothing under the key and the old map elsewhere.
  pub lookup-delete :
      (key other : String) (entries : GoMap V)
      → lookup other (delete key entries) ≡ (if key == other then none else lookup other entries)
  unfolding lookup delete
  lookup-delete key other [] = ground arith
  lookup-delete key other ((at, old) ∷ entries) =
      ground
        (arith, lookup-delete key other entries, eq_iff at other, eq_iff at key, eq_iff key other)

  -- Every key of the map is the name of its value.
  abbrev pub KeyedBy : (V → String) → GoMap V → Type 0
  KeyedBy id [] = Unit
  KeyedBy id ((k, v) ∷ m) = (k ≡ id v) × KeyedBy id m

  pub insert-KeyedBy :
      (id : V → String) (v : V) (m : GoMap V) → KeyedBy id m → KeyedBy id (insert (id v) v m)
  unfolding insert
  insert-KeyedBy id v [] h = (refl, tt)
  insert-KeyedBy id v ((j, w) ∷ m) h = ground (arith, insert-KeyedBy id v m h.1, h.0)

  pub delete-KeyedBy :
      (id : V → String) (k : String) (m : GoMap V) → KeyedBy id m → KeyedBy id (delete k m)
  unfolding delete
  delete-KeyedBy id k [] h = tt
  delete-KeyedBy id k ((j, w) ∷ m) h = ground (arith, delete-KeyedBy id k m h.1, h.0)

  -- No key stands twice.
  abbrev pub HasUniqueKeys : GoMap V → Type 0
  HasUniqueKeys [] = Unit
  HasUniqueKeys ((k, v) ∷ m) = (has_key k m ≡ false) × HasUniqueKeys m

  has_key-insert :
      (k j : String) (v : V) (m : GoMap V)
      → has_key j (insert k v m) ≡ (if k == j then true else has_key j m)
  unfolding has_key insert
  has_key-insert k j v [] = refl
  has_key-insert k j v ((i, w) ∷ m) =
      ground (arith, eq_iff k j, eq_iff i k, eq_iff i j, has_key-insert k j v m)

  has_key-delete :
      (k j : String) (m : GoMap V)
      → has_key j (delete k m) ≡ (if k == j then false else has_key j m)
  unfolding has_key delete
  has_key-delete k j [] = ground arith
  has_key-delete k j ((i, w) ∷ m) =
      ground (arith, has_key-delete k j m, eq_iff i k, eq_iff i j, eq_iff k j)

  pub insert-HasUniqueKeys :
      (k : String) (v : V) (m : GoMap V) → HasUniqueKeys m → HasUniqueKeys (insert k v m)
  unfolding insert has_key
  insert-HasUniqueKeys k v [] h = (refl, tt)
  insert-HasUniqueKeys k v ((j, w) ∷ m) h =
      ground
        (arith, insert-HasUniqueKeys k v m h.1, has_key-insert k j v m, eq_iff j k, eq_iff k j, h.0)

  pub delete-HasUniqueKeys :
      (k : String) (m : GoMap V) → HasUniqueKeys m → HasUniqueKeys (delete k m)
  unfolding delete
  delete-HasUniqueKeys k [] h = tt
  delete-HasUniqueKeys k ((j, w) ∷ m) h =
      ground
        (arith, delete-HasUniqueKeys k m h.1, has_key-delete k j m, eq_iff j k, eq_iff k j, h.0)

  pub lookup-mem : (k : String) (v : V) (m : GoMap V) → lookup k m ≡ some v → Memᴰ v (values m)
  unfolding lookup values
  lookup-mem k v [] h = cc
  lookup-mem k v ((j, w) ∷ m) h = elim (String-cases j k) [
    | inl e ↦ Memᴰ.head (ground (arith, eq_iff j k, h, e))
    | inr e ↦ Memᴰ.tail (lookup-mem k v m (ground (arith, eq_iff j k, h, e)))
  ]

  has_key_of_mem :
      (id : V → String) (v : V) (m : GoMap V)
      → KeyedBy id m
      → Memᴰ v (values m)
      → has_key (id v) m ≡ true
  unfolding has_key values
  has_key_of_mem id v [] kb m = elim m [ ]
  has_key_of_mem id v ((j, w) ∷ m) kb (Memᴰ.head q) = rw q (ground (arith, eq_iff j (id w), kb.0))
  has_key_of_mem id v ((j, w) ∷ m) kb (Memᴰ.tail t) = ground (arith, has_key_of_mem id v m kb.1 t)

  -- Under the invariant, what `range` visits is what a lookup of its name finds.
  pub mem-lookup :
      (id : V → String) (v : V) (m : GoMap V)
      → KeyedBy id m
      → HasUniqueKeys m
      → Memᴰ v (values m)
      → lookup (id v) m ≡ some v
  unfolding lookup values
  mem-lookup id v [] kb u m = elim m [ ]
  mem-lookup id v ((j, w) ∷ m) kb u (Memᴰ.head q) = rw q (ground (arith, eq_iff j (id w), kb.0))
  mem-lookup id v ((j, w) ∷ m) kb u (Memᴰ.tail t) = elim (String-cases j (id v)) [
    | inl e ↦ absurd (cc (u.0, has_key_of_mem id v m kb.1 t, e))
    | inr e ↦ rw (eq_false _ _ e) (mem-lookup id v m kb.1 u.1 t)
  ]

  -- A key whose lookup fails is no key.
  pub has_key_of_lookup : (k : String) (m : GoMap V) → lookup k m ≡ none → has_key k m ≡ false
  unfolding lookup has_key
  has_key_of_lookup k [] h = refl
  has_key_of_lookup k ((j, w) ∷ m) h = ground (arith, eq_iff j k, has_key_of_lookup k m)

pub ruleset map_laws = (lookup-insert, lookup-delete)
