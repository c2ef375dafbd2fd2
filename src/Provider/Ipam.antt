-- ===== src/Provider/Ipam.antt =====
-- provider/ipam.go: the allocation of addresses from the configured range.
pub mod Search
use fusis.Prelude.{
  ℕ, zero, suc, String, ◌==◌, Bool, true, false, Option, none, some, List, [], ◌∷◌, if◌then◌else◌,
}
use fusis.Types.{Result, ok, err}
use fusis.Types.Service.{Service}
use fusis.Ipvs.State.{FusisState, get_services}

-- What the package `ipaddr` provides: a cursor over the addresses of a range. `next` moves the
-- cursor and returns its position, or no position at the end of the range.
pub record Ranges : Type 1 where
  pub Cursor : Type 0
  pub Position : Type 0
  pub parse : String → Result Cursor
  pub next : Cursor → Option Position × Cursor
  pub first : Cursor → Position
  pub set : Position → Cursor → Cursor
  pub ip : Position → String

-- The loop of `ipIsAssigned`, which never returns an error.
unfoldable pub has_host : String → List Service → Bool
has_host e [] = false
has_host e (a ∷ services) = if a.host == e then true else has_host e services

unfoldable pub ip_is_assigned : String → FusisState → Result Bool
unfolding has_host
ip_is_assigned e s = ok (has_host e (get_services s))

module _ (ranges : Ranges) where
  open ranges use {Cursor, Position, parse, next, first, set, ip}

  -- An `Ipam` is a pointer to its cursor.
  unfoldable pub new_ipam : String → Result Cursor
  new_ipam iprange = parse iprange

  abbrev pub Allocation : Type 0
  Allocation = Option (Cursor × Result String)

  unfoldable pub if_assigned : Result Bool → Position → Cursor → (Cursor → Allocation) → Allocation
  if_assigned (err e) pos c again = some (c, err e)
  if_assigned (ok false) pos c again = some (set (first c) c, ok (ip pos))
  if_assigned (ok true) pos c again = again c

  -- What one round of `Allocate` does with the position that `Next` returned; `again` goes on.
  unfoldable pub at_position :
      FusisState → Option Position × Cursor → (Cursor → Allocation) → Allocation
  unfolding if_assigned
  at_position s (none, c) again = some (c, ok "")
  at_position s (some pos, c) again = if_assigned (ip_is_assigned (ip pos) s) pos c again

  -- `Allocate`, on fuel for the rounds of its loop; `none` means that the fuel ran out.
  unfoldable pub allocate : ℕ → FusisState → Cursor → Allocation
  unfolding at_position
  allocate zero s c = none
  allocate (suc fuel) s c = at_position s (next c) (λ c'. allocate fuel s c')

  -- `Release` does nothing.
  unfoldable pub release : String → Cursor → Cursor
  release alloc_ip c = c
