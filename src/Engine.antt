-- ===== src/Engine.antt =====
-- engine/engine.go and engine/commandop_string.go: the replicated state machine. Every balancer
-- applies the committed commands of the raft log to its `FusisState`.
pub mod Naming
pub mod Snapshots
pub mod Commands
pub mod Stats
pub mod Replication
use fusis.Prelude.{
  ℤ, pos, negsuc, ℕ, zero, suc, String, Option, none, some, List, [], ◌∷◌, Bool, ltb, if◌then◌else◌,
}
use fusis.Prelude.Text.{concat, decimal}
use fusis.Types.{Error, Result, ok, err, Outcome, returned, panicked}
use fusis.Types.Service.{Service}
use fusis.Types.Destination.{Destination}
use fusis.Ipvs.State.{
  FusisState, get_services, add_service, delete_service, add_destination, delete_destination,
}

-- `type CommandOp int`: the constants are 0 to 3, and a decoded command may hold any other number.
abbrev pub CommandOp : Type 0
CommandOp = ℤ

abbrev pub add_service_op : CommandOp
add_service_op = pos 0

abbrev pub del_service_op : CommandOp
del_service_op = pos 1

abbrev pub add_destination_op : CommandOp
add_destination_op = pos 2

abbrev pub del_destination_op : CommandOp
del_destination_op = pos 3

pub record Command : Type 0 where
  pub op : CommandOp
  pub service : Option Service
  pub destination : Option Destination

-- The dereference of a pointer argument by the callee.
abbrev pub deref {ℓ κ} : {A : Type ℓ} {B : Type κ} → Option A → (A → B) → Outcome B
deref none f = panicked
deref (some a) f = returned (f a)

-- The `switch c.Op` of `Apply`, its cases the constants in their order; an unknown operation changes nothing.
unfoldable pub dispatch : CommandOp → Command → FusisState → Outcome FusisState
dispatch (pos zero) c s = deref c.service (λ svc. add_service svc s)
dispatch (pos (suc zero)) c s = deref c.service (λ svc. delete_service svc s)
dispatch (pos (suc (suc zero))) c s = deref c.destination (λ dst. add_destination dst s)
dispatch (pos (suc (suc (suc zero)))) c s = deref c.destination (λ dst. delete_destination dst s)
dispatch (pos (suc (suc (suc (suc n))))) c s = returned s
dispatch (negsuc n) c s = returned s

unfoldable pub apply_command : Command → FusisState → Outcome FusisState
unfolding dispatch
apply_command c s = dispatch c.op c s

unfoldable pub restore_destinations : List Destination → FusisState → FusisState
restore_destinations [] s = s
restore_destinations (d ∷ ds) s = restore_destinations ds (add_destination d s)

-- The two loops of `Restore`: the decoded services, and the destinations of each. What the state
-- held before stays.
unfoldable pub restore_services : List Service → FusisState → FusisState
unfolding restore_destinations
restore_services [] s = s
restore_services (svc ∷ svcs) s =
    restore_services svcs (restore_destinations svc.destinations (add_service svc s))

-- `Snapshot`: the services, each with the destinations that name it.
unfoldable pub snapshot : FusisState → List Service
snapshot s = get_services s

-- `handleStateChange` of the balancer is handed in: from the state and what it works on, it gives
-- the response that goes back to raft, and may panic.
module _ {W : Type 0} (state_change : FusisState → W → Outcome (W × Option Error)) where
  -- `e.StateCh <- rsp; return <-rsp`
  abbrev notify : FusisState → W → Outcome ((FusisState × W) × Option Error)
  notify s w = elim (state_change s w) [
    | panicked ↦ panicked
    | returned (w', response) ↦ returned ((s, w'), response)
  ]

  -- `Apply`. A log entry is the command itself: what `encoding/json` writes of it, it reads back.
  unfoldable pub apply : Command → FusisState → W → Outcome ((FusisState × W) × Option Error)
  apply c s w = elim (apply_command c s) [ panicked ↦ panicked | returned s' ↦ notify s' w ]

  -- `Restore`, from the result of decoding the snapshot.
  unfoldable pub restore :
      Result (List Service) → FusisState → W → Outcome ((FusisState × W) × Option Error)
  restore (err e) s w = returned ((s, w), some e)
  restore (ok services) s w = notify (restore_services services s) w
