-- ===== src/Engine/Commands.antt =====
-- What the commands of the log keep.
use fusis.Prelude.{zero, suc, pos, negsuc, ◌≡◌, Option, none, some}
use fusis.Ipvs.State.{FusisState}
use fusis.Ipvs.State.Invariant.{
  IsKeyed, add_service-IsKeyed, delete_service-IsKeyed, add_destination-IsKeyed,
  delete_destination-IsKeyed,
}
use fusis.Types.{returned}
use fusis.Engine.{CommandOp, Command, dispatch, apply_command, deref}

-- A run of the log: the commands that raft commits, one after the other.
pub data Log : FusisState → FusisState → Type 0 where
  start : {s : FusisState} → Log s s
  commit : {s t u : FusisState} (c : Command) → Log s t → apply_command c t ≡ returned u → Log s u

deref-IsKeyed {ℓ} :
    {A : Type ℓ} (p : Option A) (f : A → FusisState) (u : FusisState)
    → ((a : A) → IsKeyed (f a))
    → deref p f ≡ returned u
    → IsKeyed u
deref-IsKeyed none f u h e = cc
deref-IsKeyed (some a) f u h e = let same : f a ≡ u = cc in rw (← same) (h a)

apply_command-IsKeyed :
    (c : Command) (s u : FusisState) → IsKeyed s → apply_command c s ≡ returned u → IsKeyed u
unfolding apply_command
apply_command-IsKeyed c s u h e = by_op c.op e
  where
    by_op : (op : CommandOp) → dispatch op c s ≡ returned u → IsKeyed u
    by_op (pos zero) e = deref-IsKeyed c.service _ u (λ svc. add_service-IsKeyed svc s h) e
    by_op (pos (suc zero)) e = deref-IsKeyed c.service _ u (λ svc. delete_service-IsKeyed svc s h) e
    by_op (pos (suc (suc zero))) e =
        deref-IsKeyed c.destination _ u (λ dst. add_destination-IsKeyed dst s h) e
    by_op (pos (suc (suc (suc zero)))) e =
        deref-IsKeyed c.destination _ u (λ dst. delete_destination-IsKeyed dst s h) e
    by_op (pos (suc (suc (suc (suc n))))) e = let same : s ≡ u = cc in rw (← same) h
    by_op (negsuc n) e = let same : s ≡ u = cc in rw (← same) h

-- Whatever the log holds, unknown operations included, the state that a balancer reaches from the
-- empty one is keyed by name with no name twice.
pub Log-IsKeyed : {s u : FusisState} → IsKeyed s → Log s u → IsKeyed u
Log-IsKeyed h start = h
Log-IsKeyed h (commit {t = t} {u = u} c log e) = apply_command-IsKeyed c t u (Log-IsKeyed h log) e
