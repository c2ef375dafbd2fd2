-- ===== src/Balancer/Raft.antt =====
-- What `ApplyToRaft` does to a node, and what `Allocate` can hand to `AddService`.
use fusis.Prelude.{
  ℕ, zero, suc, String, ◌≡◌, refl, sym, ◌⊎◌, Option, none, some, Bool, true, false, List, arith,
  inl, inr,
}
use fusis.Types.{Error, ok, returned}
use fusis.Types.Service.{Service}
use fusis.Ipvs.State.{FusisState, get_services}
use fusis.Engine
use fusis.Engine.{Command, apply_command}
use fusis.Provider.Ipam.{Ranges, has_host, ip_is_assigned, if_assigned, at_position, allocate}
use fusis.Balancer.{Platform, Node, apply_to_raft}

-- Raft refused the command and nothing changed, or the command was applied to the state.
pub data Raft {platform : Platform} (verdict : Option Error) (c : Command) (n n' : Node platform)
    (e : Option Error) : Type 0 where
  refused : (x : Error) → verdict ≡ some x → n' ≡ n → e ≡ some x → Raft verdict c n n' e
  applied :
      verdict ≡ none
      → apply_command c n.state ≡ returned n'.state
      → n'.provider ≡ n.provider
      → Raft verdict c n n' e

module _ (platform : Platform) where
  pub apply_to_raft-Raft :
      (verdict : Option Error) (c : Command) (n : Node platform) {n' : Node platform}
      {e : Option Error}
      → apply_to_raft platform verdict c n ≡ returned (n', e)
      → Raft verdict c n n' e
  unfolding apply_to_raft Engine.apply
  apply_to_raft-Raft (some x) c n h = refused x refl (ground arith) (ground arith)
  apply_to_raft-Raft none c n h = applied refl (ground arith) (ground arith)

module _ (ranges : Ranges) where
  open ranges use {Cursor, Position, next, first, set, ip}

  -- From this cursor on, some service has every address up to the end of the range.
  pub data IsFull (services : List Service) : Cursor → Type 0 where
    ended : {c c' : Cursor} → next c ≡ (none, c') → IsFull services c
    taken :
        {c c' : Cursor} (pos : Position)
        → next c ≡ (some pos, c')
        → has_host (ip pos) services ≡ true
        → IsFull services c'
        → IsFull services c

  -- What `Allocate` may return: an address of the range that no service has, or "" if every address
  -- that was left is taken.
  abbrev pub Allocated : List Service → Cursor → String → Type 0
  Allocated services c vip =
      ((vip ≡ "") × IsFull services c)
      ⊎ ((has_host vip services ≡ false) × (pos : Position) × (vip ≡ ip pos))

  pub allocate-has_host :
      (fuel : ℕ) (s : FusisState) (c c' : Cursor) (vip : String)
      → allocate ranges fuel s c ≡ some (c', ok vip)
      → Allocated (get_services s) c vip
  unfolding allocate at_position if_assigned ip_is_assigned
  allocate-has_host zero s c c' vip h = cc
  allocate-has_host (suc fuel) s c c' vip h =
      by_next (next c) refl (λ d g. allocate-has_host fuel s d c' vip g) h
    where
      by_assigned :
          (pos : Position) (d : Cursor)
          → next c ≡ (some pos, d)
          → (b : Bool) → has_host (ip pos) (get_services s) ≡ b
          → (allocate ranges fuel s d ≡ some (c', ok vip) → Allocated (get_services s) d vip)
          → if_assigned ranges (ok b) pos d (λ r. allocate ranges fuel s r) ≡ some (c', ok vip)
          → Allocated (get_services s) c vip
      by_assigned pos d e false free later g =
          let same : ip pos ≡ vip = ground arith in inr (rw (← same) free, pos, sym same)
      by_assigned pos d e true used later g = elim (later g) [
        | inl (empty, full) ↦ inl (empty, taken pos e used full)
        | inr free ↦ inr free
      ]

      by_next :
          (r : Option Position × Cursor)
          → next c ≡ r
          → ((d : Cursor)
              → allocate ranges fuel s d ≡ some (c', ok vip)
              → Allocated (get_services s) d vip)
          → at_position ranges s r (λ d. allocate ranges fuel s d) ≡ some (c', ok vip)
          → Allocated (get_services s) c vip
      by_next (none, d) e later g = inl (ground arith, ended e)
      by_next (some pos, d) e later g =
          by_assigned pos d e (has_host (ip pos) (get_services s)) refl (later d) g
