-- ===== src/Engine/Replication.antt =====
-- The log against an abstract registry: two maps as functions, with no order and no representation.
pub mod Replicas
pub mod Holding
pub mod Registry
use fusis.Prelude.{
  zero, suc, pos, negsuc, String, ◌==◌, Option, none, some, List, [], ◌∷◌, if◌then◌else◌,
}
use fusis.Types.{Error, Outcome, returned, panicked, and_then}
use fusis.Types.Service.{Service}
use fusis.Types.Destination.{Destination}
use fusis.Ipvs.State.{FusisState}
use fusis.Engine.{CommandOp, Command, apply_command, apply, deref}

-- A balancer that applies the commands of the log, one after the other.
unfoldable pub replay : List Command → FusisState → Outcome FusisState
replay [] s = returned s
replay (c ∷ cs) s = and_then (apply_command c s) (replay cs)

module _ {W : Type 0} (state_change : FusisState → W → Outcome (W × Option Error)) where
  -- The same with the machine behind it, which is brought in line after each command; raft keeps
  -- going whatever the response is.
  unfoldable pub run_log : List Command → FusisState → W → Outcome (FusisState × W)
  run_log [] s w = returned (s, w)
  run_log (c ∷ cs) s w = and_then (apply state_change c s w) (λ r. run_log cs r.0.0 r.0.1)

-- What a registry promises: the last service and the last destination that were stored under a name.
pub record Contents : Type 0 where
  pub services : String → Option Service
  pub destinations : String → Option Destination

abbrev pub nothing : Contents
nothing = record { services = λ k. none; destinations = λ k. none }

abbrev pub put {ℓ} : {V : Type ℓ} → String → Option V → (String → Option V) → String → Option V
put k v m j = if k == j then v else m j

abbrev pub effect : CommandOp → Command → Contents → Outcome Contents
effect (pos zero) c r =
    deref c.service (λ svc. record r { services = put svc.name (some svc) r.services })
effect (pos (suc zero)) c r =
    deref c.service (λ svc. record r { services = put svc.name none r.services })
effect (pos (suc (suc zero))) c r =
    deref c.destination (λ d. record r { destinations = put d.name (some d) r.destinations })
effect (pos (suc (suc (suc zero)))) c r =
    deref c.destination (λ d. record r { destinations = put d.name none r.destinations })
effect (pos (suc (suc (suc (suc n))))) c r = returned r
effect (negsuc n) c r = returned r

unfoldable pub replay_effects : List Command → Contents → Outcome Contents
replay_effects [] r = returned r
replay_effects (c ∷ cs) r = and_then (effect c.op c r) (replay_effects cs)
