-- ===== src/Prelude/Text/Dashes.antt =====
-- Printed numbers are read back, hold no dash, and a text is split at its last dash in one way.
use Prim.Native.Nat.{ℕ, zero, suc, ◌+◌, ◌*◌, ◌-◌, ◌/◌, ◌%◌, ◌<◌}
use Prim.Native.Char.{Char, code}
use Prim.Native.String.{String, [], ◌∷◌, ◌++◌}
use mathlib.Core.Path.{◌≡◌, refl, sym, ap, ◌∙◌}
use mathlib.Core.Logic.{◌≢◌, inl, inr}
use native.Mathlib.Omega.{arith}
use text.Mathlib.TextLemmas.{nil-append, cons-append, head-eq_of_cons-eq, tail-eq_of_cons-eq}
use fusis.Prelude.Tests.{ltb, Bool-cases}
use fusis.Prelude.Text.{digit, digits, decimal}

-- The number that a text of digits spells behind `n`.
abbrev pub value : ℕ → String → ℕ
value n [] = n
value n (c ∷ s) = value (n * 10 + (code c - 48)) s

code-digit : (d : ℕ) → d < 10 → code (digit d) ≡ 48 + d
code-digit zero h = refl
code-digit (suc zero) h = refl
code-digit (suc (suc zero)) h = refl
code-digit (suc (suc (suc zero))) h = refl
code-digit (suc (suc (suc (suc zero)))) h = refl
code-digit (suc (suc (suc (suc (suc zero))))) h = refl
code-digit (suc (suc (suc (suc (suc (suc zero)))))) h = refl
code-digit (suc (suc (suc (suc (suc (suc (suc zero))))))) h = refl
code-digit (suc (suc (suc (suc (suc (suc (suc (suc zero)))))))) h = refl
code-digit (suc (suc (suc (suc (suc (suc (suc (suc (suc zero))))))))) h = refl
code-digit (suc (suc (suc (suc (suc (suc (suc (suc (suc (suc n)))))))))) h = absurd (omega arith)

value-append : (n : ℕ) (s t : String) → value n (s ++ t) ≡ value (value n s) t
value-append n [] t = rw nil-append refl
value-append n (c ∷ s) t = rw cons-append (value-append (n * 10 + (code c - 48)) s t)

value-digits : (fuel n : ℕ) → n < fuel → value 0 (digits fuel n) ≡ n
unfolding digits
value-digits zero n h = elim h [ ]
value-digits (suc fuel) n h = elim (Bool-cases (ltb n 10)) [
  | inl e ↦ rw e (omega (arith, code-digit n (ground arith)))
  | inr e ↦ rw e (
      rw value-append (
        omega
          (arith, code-digit (n % 10) (omega arith), value-digits fuel (n / 10) (ground arith))))
]

value-decimal : (n : ℕ) → value 0 (decimal n) ≡ n
unfolding decimal
value-decimal n = value-digits (suc n) n (omega arith)

pub decimal-injective : (a b : ℕ) → decimal a ≡ decimal b → a ≡ b
decimal-injective a b h = sym (value-decimal a) ∙ (ap (value 0) h ∙ value-decimal b)

abbrev pub NoDash : String → Type 0
NoDash [] = Unit
NoDash (c ∷ s) = (code c ≢ b'-') × NoDash s

NoDash-append : (s t : String) → NoDash s → NoDash t → NoDash (s ++ t)
NoDash-append [] t h k = rw nil-append k
NoDash-append (c ∷ s) t h k = rw cons-append (h.0, NoDash-append s t h.1 k)

digit-ne-dash : (d : ℕ) → code (digit d) ≢ b'-'
digit-ne-dash zero = omega arith
digit-ne-dash (suc zero) = omega arith
digit-ne-dash (suc (suc zero)) = omega arith
digit-ne-dash (suc (suc (suc zero))) = omega arith
digit-ne-dash (suc (suc (suc (suc zero)))) = omega arith
digit-ne-dash (suc (suc (suc (suc (suc zero))))) = omega arith
digit-ne-dash (suc (suc (suc (suc (suc (suc zero)))))) = omega arith
digit-ne-dash (suc (suc (suc (suc (suc (suc (suc zero))))))) = omega arith
digit-ne-dash (suc (suc (suc (suc (suc (suc (suc (suc zero)))))))) = omega arith
digit-ne-dash (suc (suc (suc (suc (suc (suc (suc (suc (suc n))))))))) = omega arith

digits-NoDash : (fuel n : ℕ) → NoDash (digits fuel n)
unfolding digits
digits-NoDash zero n = tt
digits-NoDash (suc fuel) n = elim (Bool-cases (ltb n 10)) [
  | inl e ↦ rw e (digit-ne-dash n, tt)
  | inr e ↦ rw e (
      NoDash-append (digits fuel (n / 10)) (digit (n % 10) ∷ "") (digits-NoDash fuel (n / 10))
        (digit-ne-dash (n % 10), tt))
]

pub decimal-NoDash : (n : ℕ) → NoDash (decimal n)
unfolding decimal
decimal-NoDash n = digits-NoDash (suc n) n

abbrev dash : Char
dash = "-"

dash_inside : (s t : String) → NoDash (s ++ (dash ∷ t)) → ⊥
dash_inside [] t h = (rw nil-append at h).0 refl
dash_inside (c ∷ s) t h = dash_inside s t (rw cons-append at h).1

-- Two texts that agree, each cut before a part with no dash, agree on both sides of the cut.
pub split_last_dash :
    (s t a b : String) → NoDash a → NoDash b → s ++ (dash ∷ a) ≡ t ++ (dash ∷ b) → (s ≡ t) × (a ≡ b)
split_last_dash [] [] a b ha hb e =
    (refl, tail-eq_of_cons-eq (sym (nil-append _) ∙ (e ∙ nil-append _)))
split_last_dash [] (c ∷ t) a b ha hb e =
    let e' : (dash ∷ a) ≡ (c ∷ (t ++ (dash ∷ b))) = sym (nil-append _) ∙ (e ∙ cons-append c t _) in
    absurd (dash_inside t b (rw (tail-eq_of_cons-eq e') at ha))
split_last_dash (c ∷ s) [] a b ha hb e =
    let e' : (c ∷ (s ++ (dash ∷ a))) ≡ (dash ∷ b) = sym (cons-append c s _) ∙ (e ∙ nil-append _) in
    absurd (dash_inside s a (rw (← tail-eq_of_cons-eq e') at hb))
split_last_dash (c ∷ s) (d ∷ t) a b ha hb e =
    let e' : (c ∷ (s ++ (dash ∷ a))) ≡ (d ∷ (t ++ (dash ∷ b))) =
      sym (cons-append c s _) ∙ (e ∙ cons-append d t _) in
    let (p, q) = split_last_dash s t a b ha hb (tail-eq_of_cons-eq e') in
    (cc (p, head-eq_of_cons-eq e'), q)
