-- ===== src/Prelude/Text.antt =====
-- What the program uses of Go's `fmt`, `strings` and `strconv`: concatenation by `Sprintf`,
-- `strings.Join`, and `%d` of an unsigned number.
pub mod Dashes
use Prim.Native.Nat.{ℕ, zero, suc, ◌/◌, ◌%◌}
use Prim.Native.Char.{Char}
use Prim.Native.String.{String, ◌++◌}
use mathlib.Core.List.{List, [], ◌∷◌}
use fusis.Prelude.Tests.{ltb, if◌then◌else◌}

-- The parts of a `Sprintf` call, one after the other.
unfoldable pub concat : List String → String
concat [] = ""
concat (s ∷ []) = s
concat (s ∷ t ∷ ss) = s ++ concat (t ∷ ss)

-- `strings.Join`
unfoldable pub join : String → List String → String
join sep [] = ""
join sep (s ∷ []) = s
join sep (s ∷ t ∷ ss) = s ++ (sep ++ join sep (t ∷ ss))

abbrev pub digit : ℕ → Char
digit zero = "0"
digit (suc zero) = "1"
digit (suc (suc zero)) = "2"
digit (suc (suc (suc zero))) = "3"
digit (suc (suc (suc (suc zero)))) = "4"
digit (suc (suc (suc (suc (suc zero))))) = "5"
digit (suc (suc (suc (suc (suc (suc zero)))))) = "6"
digit (suc (suc (suc (suc (suc (suc (suc zero))))))) = "7"
digit (suc (suc (suc (suc (suc (suc (suc (suc zero)))))))) = "8"
digit (suc (suc (suc (suc (suc (suc (suc (suc (suc n))))))))) = "9"

-- The digits of `n`, on fuel: a round for each digit, so `suc n` rounds are enough.
unfoldable pub digits : ℕ → ℕ → String
digits zero n = ""
digits (suc fuel) n =
    let rest = digits fuel (n / 10) ++ String.◌∷◌ (digit (n % 10)) "" in
    if ltb n 10 then String.◌∷◌ (digit n) "" else rest

-- `%d`
unfoldable pub decimal : ℕ → String
unfolding digits
decimal n = digits (suc n) n
