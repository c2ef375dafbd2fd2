-- ===== src/Diff/Distinct.antt =====
-- Lists with distinct keys, under another key or another reading of their items.
use fusis.Prelude.{String, ◌≡◌, ◌≢◌, refl, eq_iff, true, false, List, [], ◌∷◌, Memᴰ, map, arith}
use fusis.Diff.Laws.{mentions, HasDistinctKeys}

-- Items that are read as others with the same keys.
module _ {A B : Type 0} (key : A → String) (other_key : B → String) (f : A → B)
    (same : (a : A) → other_key (f a) ≡ key a) where
  pub mentions-map : (k : String) (l : List A) → mentions other_key k (map f l) ≡ mentions key k l
  mentions-map k [] = refl
  mentions-map k (a ∷ l) = rw (same a) (rw (mentions-map k l) refl)

  pub map-HasDistinctKeys :
      (l : List A) → HasDistinctKeys key l → HasDistinctKeys other_key (map f l)
  map-HasDistinctKeys [] h = tt
  map-HasDistinctKeys (a ∷ l) h =
      (rw (same a) (rw (mentions-map (key a) l) h.0), map-HasDistinctKeys l h.1)

pub mem-mentions :
    {A : Type 0} (key : A → String) (a : A) (l : List A) → Memᴰ a l → mentions key (key a) l ≡ true
mem-mentions key a [] m = elim m [ ]
mem-mentions key a (x ∷ l) (Memᴰ.head q) = rw q (ground (arith, eq_iff (key x) (key x)))
mem-mentions key a (x ∷ l) (Memᴰ.tail t) = ground (arith, mem-mentions key a l t)

none-mentions :
    {A : Type 0} (key : A → String) (k : String) (l : List A)
    → ((a : A) → Memᴰ a l → key a ≢ k)
    → mentions key k l ≡ false
none-mentions key k [] h = refl
none-mentions key k (x ∷ l) h = ground (
  arith,
  h x (Memᴰ.head refl),
  none-mentions key k l (λ a m. h a (Memᴰ.tail m)),
  eq_iff (key x) k,
)

-- If items with different names have different keys, a list with distinct names has distinct keys.
pub distinct_under :
    {A : Type 0} (name key : A → String) (l : List A)
    → ((a b : A) → Memᴰ a l → Memᴰ b l → name a ≢ name b → key a ≢ key b)
    → HasDistinctKeys name l
    → HasDistinctKeys key l
distinct_under name key [] apart h = tt
distinct_under name key (x ∷ l) apart h = (
  none-mentions key (key x) l (λ a m.
      apart a x (Memᴰ.tail m) (Memᴰ.head refl)
        (λ e. ground (arith, mem-mentions name a l m, h.0, e))),
  distinct_under name key l (λ a b m n. apart a b (Memᴰ.tail m) (Memᴰ.tail n)) h.1,
)
