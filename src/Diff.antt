-- ===== src/Diff.antt =====
-- The comparison that `SyncState` and `diffDestinations` (ipvs/ipvs.go) and `SyncVIPs`
-- (provider/none.go) share: the new items stand in a map by their key, and each old item either
-- takes its match out of the map or is to be removed.
pub mod Laws
pub mod Parts
pub mod Merged
pub mod Olds
pub mod Distinct
use fusis.Prelude.{String, Option, none, some, List, [], ◌∷◌, ◌++◌}
use fusis.GoMap.{GoMap, lookup, insert, delete, values}

pub record Plan (A B : Type 0) : Type 0 where
  pub to_add : GoMap B
  pub to_remove : List A
  pub to_merge : List (A × B)

module _ {A B : Type 0} (old_key : A → String) (new_key : B → String) where
  -- `for i, s := range newServices { toAddMap[s.KernelKey()] = &newServices[i] }`
  unfoldable pub index : List B → GoMap B → GoMap B
  index [] m = m
  index (b ∷ bs) m = index bs (insert (new_key b) b m)

  abbrev pub found_or_not : A → Plan A B → Option B → Plan A B
  found_or_not a p (some b) = record p {
    to_merge = p.to_merge ++ (a, b) ∷ [];
    to_add = delete (old_key a) p.to_add;
  }
  found_or_not a p none = record p { to_remove = p.to_remove ++ a ∷ [] }

  -- The loop over the old items.
  unfoldable pub scan : List A → Plan A B → Plan A B
  scan [] p = p
  scan (a ∷ as') p = scan as' (found_or_not a p (lookup (old_key a) p.to_add))

  unfoldable pub diff : List A → List B → Plan A B
  unfolding index scan
  diff olds news = scan olds (record { to_add = index news []; to_remove = []; to_merge = [] })
