-- ===== src/Prelude/Lists.antt =====
-- Lists measured by native numbers, a filter by a Boolean test, and predicates by recursion.
use Prim.Native.Nat.{ℕ, suc}
use mathlib.Core.Path.{◌≡◌, refl}
use mathlib.Core.Logic.{inl, inr}
use mathlib.Core.Bool.{Bool, true}
use mathlib.Core.List.{List, [], ◌∷◌, ◌++◌, Memᴰ}
use native.Mathlib.Omega.{arith}
use fusis.Prelude.Tests.{if◌then◌else◌, Bool-cases}

module _ {ℓ} {A : Type ℓ} where
  abbrev pub length : List A → ℕ
  length [] = 0
  length (x ∷ xs) = suc (length xs)

  -- The loop `for _, x := range xs { if p(x) { out = append(out, x) } }`.
  abbrev pub select : (A → Bool) → List A → List A
  select p [] = []
  select p (x ∷ xs) = let rest = select p xs in if p x then x ∷ rest else rest

  pub select-append :
      (p : A → Bool) (xs ys : List A) → select p (xs ++ ys) ≡ select p xs ++ select p ys
  select-append p [] ys = refl
  select-append p (x ∷ xs) ys = ground (arith, select-append p xs ys)

  mem_step :
      (p : A → Bool) (a x : A) (xs rest : List A)
      → (Memᴰ a rest → Memᴰ a xs × (p a ≡ true))
      → Memᴰ a (if p x then x ∷ rest else rest)
      → Memᴰ a (x ∷ xs) × (p a ≡ true)
  mem_step p a x xs rest ih m = elim (Bool-cases (p x)) [
    | inl e ↦ kept e (rw e at m)
    | inr e ↦ (Memᴰ.tail (ih (rw e at m)).0, (ih (rw e at m)).1)
  ]
    where
      kept : p x ≡ true → Memᴰ a (x ∷ rest) → Memᴰ a (x ∷ xs) × (p a ≡ true)
      kept e (Memᴰ.head q) = (Memᴰ.head q, rw q e)
      kept e (Memᴰ.tail t) = (Memᴰ.tail (ih t).0, (ih t).1)

  pub mem-select :
      (p : A → Bool) (a : A) (xs : List A) → Memᴰ a (select p xs) → Memᴰ a xs × (p a ≡ true)
  mem-select p a [] m = elim m [ ]
  mem-select p a (x ∷ xs) m = mem_step p a x xs (select p xs) (mem-select p a xs) m

  pub select-mem :
      (p : A → Bool) (a : A) (xs : List A) → Memᴰ a xs → p a ≡ true → Memᴰ a (select p xs)
  select-mem p a [] m h = elim m [ ]
  select-mem p a (x ∷ xs) (Memᴰ.head q) h = rw (← q) (rw h (Memᴰ.head refl))
  select-mem p a (x ∷ xs) (Memᴰ.tail t) h = elim (Bool-cases (p x)) [
    | inl e ↦ rw e (Memᴰ.tail (select-mem p a xs t h))
    | inr e ↦ rw e (select-mem p a xs t h)
  ]

abbrev pub All {ℓ κ} : {A : Type ℓ} → (A → Type κ) → List A → Type κ
All P [] = Unit
All P (x ∷ xs) = P x × All P xs

pub All-mem {ℓ κ} : {A : Type ℓ} (P : A → Type κ) {a : A} (xs : List A) → All P xs → Memᴰ a xs → P a
All-mem P [] h m = elim m [ ]
All-mem P (x ∷ xs) h (Memᴰ.head q) = rw q h.0
All-mem P (x ∷ xs) h (Memᴰ.tail t) = All-mem P xs h.1 t
