-- ===== src/Engine/Naming.antt =====
-- engine/commandop_string.go: the name of an operation is a slice of one constant text.
use Prim.Native.String.{slice}
use fusis.Prelude.{
  arith, ℕ, zero, suc, String, ◌≡◌, refl, List, [], ◌∷◌, ltb, if◌then◌else◌, ℤ, pos, negsuc,
}
use fusis.Prelude.Text.{concat, decimal}
use fusis.Engine.{CommandOp}

abbrev pub command_op_name : String
command_op_name = "AddServiceOpDelServiceOpAddDestinationOpDelDestinationOp"

abbrev pub command_op_index : List ℕ
command_op_index = 0 ∷ 12 ∷ 24 ∷ 40 ∷ 56 ∷ []

abbrev index_at : ℕ → List ℕ → ℕ
index_at i [] = 0
index_at zero (x ∷ xs) = x
index_at (suc i) (x ∷ xs) = index_at i xs

-- `%d` of an `int`
abbrev signed : ℤ → String
signed (pos n) = decimal n
signed (negsuc n) = concat ("-" ∷ decimal (suc n) ∷ [])

abbrev unnamed : ℤ → String
unnamed i = concat ("CommandOp(" ∷ signed i ∷ ")" ∷ [])

-- `len(_CommandOp_index)-1` is 4.
pub command_op_string : CommandOp → String
command_op_string (negsuc n) = unnamed (negsuc n)
command_op_string (pos n) =
    if ltb n 4
    then slice command_op_name (index_at n command_op_index) (index_at (suc n) command_op_index)
    else unnamed (pos n)

-- The names of the constants, and of every other number, written out.
abbrev pub expected_name : CommandOp → String
expected_name (pos zero) = "AddServiceOp"
expected_name (pos (suc zero)) = "DelServiceOp"
expected_name (pos (suc (suc zero))) = "AddDestinationOp"
expected_name (pos (suc (suc (suc zero)))) = "DelDestinationOp"
expected_name (pos (suc (suc (suc (suc n))))) = unnamed (pos (suc (suc (suc (suc n)))))
expected_name (negsuc n) = unnamed (negsuc n)

-- The sliced name of each of the four constants is its identifier, and any other number, negative
-- ones included, prints as "CommandOp(n)".
pub command_op_string_correct : (i : CommandOp) → command_op_string i ≡ expected_name i
unfolding command_op_string
command_op_string_correct (pos zero) = refl
command_op_string_correct (pos (suc zero)) = refl
command_op_string_correct (pos (suc (suc zero))) = refl
command_op_string_correct (pos (suc (suc (suc zero)))) = refl
command_op_string_correct (pos (suc (suc (suc (suc n))))) = ground arith
command_op_string_correct (negsuc n) = refl
