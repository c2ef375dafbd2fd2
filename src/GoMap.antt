-- ===== src/GoMap.antt =====
-- A Go `map[string]V` as a list of entries. The order of the entries stands for the order in which
-- `range` visits them, which Go leaves open: what is proved here holds for every order.
pub mod Laws
use fusis.Prelude.{
  String, Option, none, some, Bool, true, false, List, [], ◌∷◌, map, ◌==◌, if◌then◌else◌,
}

abbrev pub GoMap {ℓ} : Type ℓ → Type ℓ
GoMap V = List (String × V)

module _ {ℓ} {V : Type ℓ} where
  -- `v, ok := m[key]`
  unfoldable pub lookup : String → GoMap V → Option V
  lookup key [] = none
  lookup key ((at, value) ∷ entries) = if at == key then some value else lookup key entries

  -- `m[key] = value`: an entry that is there is replaced in its place, a new one comes last.
  unfoldable pub insert : String → V → GoMap V → GoMap V
  insert key value [] = (key, value) ∷ []
  insert key value ((at, old) ∷ entries) =
      let rest = insert key value entries in
      if at == key then (key, value) ∷ entries else (at, old) ∷ rest

  -- `delete(m, key)`
  unfoldable pub delete : String → GoMap V → GoMap V
  delete key [] = []
  delete key ((at, old) ∷ entries) =
      let rest = delete key entries in if at == key then rest else (at, old) ∷ rest

  -- The values in the order in which `for _, v := range m` visits them.
  unfoldable pub values : GoMap V → List V
  values [] = []
  values ((at, value) ∷ entries) = value ∷ values entries

  unfoldable pub has_key : String → GoMap V → Bool
  has_key key [] = false
  has_key key ((at, value) ∷ entries) = if at == key then true else has_key key entries
