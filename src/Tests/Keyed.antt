-- ===== src/Tests/Keyed.antt =====
-- Lists of which no two items have one key.
use fusis.Prelude.{
  String, ◌==◌, ◌≡◌, refl, Bool, true, false, not, List, [], ◌∷◌, arith, eq_iff, if◌then◌else◌,
  select,
}
use fusis.Diff.Laws.{mentions, HasDistinctKeys}

module _ {A : Type 0} (key : A → String) where
  abbrev pub Keyed : Type 0
  Keyed = (l : List A) × HasDistinctKeys key l

  abbrev pub put_unless : (a : A) (t : Keyed) (b : Bool) → mentions key (key a) t.0 ≡ b → Keyed
  put_unless a t true e = t
  put_unless a t false e = (a ∷ t.0, (e, t.1))

  abbrev pub put : A → Keyed → Keyed
  put a t = put_unless a t (mentions key (key a) t.0) refl

  abbrev pub put_all : List A → Keyed
  put_all [] = ([], tt)
  put_all (a ∷ as') = put a (put_all as')

  abbrev pub without_key : String → List A → List A
  without_key k = select (λ a. not (key a == k))

  mentions-put_unless :
      (a : A) (k : String) (t : Keyed) (b : Bool) (e : mentions key (key a) t.0 ≡ b)
      → mentions key k (put_unless a t b e).0 ≡ (if key a == k then true else mentions key k t.0)
  mentions-put_unless a k t true e = ground (arith, e, eq_iff (key a) k)
  mentions-put_unless a k t false e = refl

  pub mentions-put :
      (a : A) (k : String) (t : Keyed)
      → mentions key k (put a t).0 ≡ (if key a == k then true else mentions key k t.0)
  mentions-put a k t = mentions-put_unless a k t _ refl

  put_unless-new :
      (a : A) (t : Keyed) (b : Bool) (e : mentions key (key a) t.0 ≡ b)
      → mentions key (key a) t.0 ≡ false
      → (put_unless a t b e).0 ≡ a ∷ t.0
  put_unless-new a t true e absent = absurd (ground (arith, e, absent))
  put_unless-new a t false e absent = refl

  pub put-new : (a : A) (t : Keyed) → mentions key (key a) t.0 ≡ false → (put a t).0 ≡ a ∷ t.0
  put-new a t absent = put_unless-new a t _ refl absent

  pub mentions-without_key :
      (j k : String) (l : List A)
      → mentions key k (without_key j l) ≡ (if j == k then false else mentions key k l)
  mentions-without_key j k [] = ground arith
  mentions-without_key j k (a ∷ l) =
      ground (arith, mentions-without_key j k l, eq_iff j k, eq_iff (key a) j, eq_iff (key a) k)

  pub without_key-HasDistinctKeys :
      (j : String) (l : List A) → HasDistinctKeys key l → HasDistinctKeys key (without_key j l)
  without_key-HasDistinctKeys j [] h = tt
  without_key-HasDistinctKeys j (a ∷ l) h = ground (
    arith,
    without_key-HasDistinctKeys j l h.1,
    mentions-without_key j (key a) l,
    eq_iff (key a) j,
    eq_iff j (key a),
    h.0,
  )

  abbrev pub drop_key : String → Keyed → Keyed
  drop_key j t = (without_key j t.0, without_key-HasDistinctKeys j t.0 t.1)
