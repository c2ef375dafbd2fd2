-- ===== src/Tests/Provider.antt =====
-- The allocation of addresses and the synchronisation of an interface.
use fusis.Prelude.{String, ◌≡◌, refl, List, [], ◌∷◌, none, some, Option, false, arith}
use fusis.GoMap.{values}
use fusis.Types.{ok}
use fusis.Ipvs.State.{new_fusis_state, get_services, with_destinations}
use fusis.Provider.Ipam.{Ranges, has_host, allocate}
use fusis.Provider.Ipam.Search.{
  Walks, done, step, first_free, some_free, Rests, allocate-first_free, allocate_after_full,
}
use fusis.Tests.Samples.{saved}

-- A range of four addresses; its cursor is the list of the addresses after the current one.
abbrev hosts : List String
hosts = "10.0.0.1" ∷ "10.0.0.2" ∷ "10.0.0.3" ∷ []

abbrev turn : List String → Option String × List String
turn [] = (none, [])
turn (e ∷ es) = (some e, es)

abbrev pub small_range : Ranges
small_range = record {
  Cursor = List String;
  Position = String;
  parse = λ text. ok hosts;
  next = turn;
  first = λ c. "10.0.0.0";
  set = λ pos c. hosts;
  ip = λ pos. pos;
}

walk : Walks small_range hosts hosts []
walk = step "10.0.0.1" refl (step "10.0.0.2" refl (step "10.0.0.3" refl (done refl)))

allocate-first_free_example :
    (c : List String) × (allocate small_range 4 saved hosts
      ≡ some (c, ok (first_free hosts (get_services saved))))
    × Rests small_range [] (some_free hosts (get_services saved)) c
allocate-first_free_example = allocate-first_free small_range 4 saved walk (omega arith)

third_free : has_host "10.0.0.3" (get_services saved) ≡ false
unfolding has_host get_services with_destinations values
third_free = refl

-- A range of the one address that "web" has.
full : some_free ("10.0.0.1" ∷ []) (get_services saved) ≡ false
unfolding has_host get_services with_destinations values
full = refl

short_walk : Walks small_range ("10.0.0.1" ∷ []) ("10.0.0.1" ∷ []) []
short_walk = step "10.0.0.1" refl (done refl)

allocate_after_full_example :
    (allocate small_range 2 saved ("10.0.0.1" ∷ []) ≡ some ([], ok ""))
    × (allocate small_range 1 new_fusis_state [] ≡ some ([], ok ""))
allocate_after_full_example =
    allocate_after_full small_range 2 1 saved new_fusis_state short_walk (omega arith) (omega arith)
      refl full
