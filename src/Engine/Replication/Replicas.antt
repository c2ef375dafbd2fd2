-- ===== src/Engine/Replication/Replicas.antt =====
-- Every balancer that applies the log reaches the same state, whatever its machine does.
use fusis.Prelude.{◌≡◌, Option, List, [], ◌∷◌, ◌++◌, arith}
use fusis.Types.{Error, Outcome, returned, and_then-returned}
use fusis.Ipvs.State.{FusisState}
use fusis.Engine.{Command, apply_command, apply}
use fusis.Engine.Replication.{replay, run_log}

apply-command :
    {W : Type 0} (state_change : FusisState → W → Outcome (W × Option Error)) (c : Command)
    (s : FusisState) (w : W) {r : (FusisState × W) × Option Error}
    → apply state_change c s w ≡ returned r
    → apply_command c s ≡ returned r.0.0
unfolding apply
apply-command state_change c s w h = ground (arith, h)

-- A run of the log on a balancer leaves the state that the commands alone give.
run_log-replay :
    {W : Type 0} (state_change : FusisState → W → Outcome (W × Option Error)) (cs : List Command)
    (s u : FusisState) (w w' : W)
    → run_log state_change cs s w ≡ returned (u, w')
    → replay cs s ≡ returned u
unfolding run_log replay
run_log-replay state_change [] s u w w' h = ground (arith, h)
run_log-replay state_change (c ∷ cs) s u w w' h =
    let (r, now, later) =
      and_then-returned (apply state_change c s w) (λ r. run_log state_change cs r.0.0 r.0.1) h in
    rw (apply-command state_change c s w now)
      (run_log-replay state_change cs r.0.0 u r.0.1 w' later)

-- Two balancers that apply the same log from the same state, each on its own machine, leader or not and
-- whatever the synchronisation of that machine answers, have the same state afterwards.
pub replicas_agree :
    {W V : Type 0} (change : FusisState → W → Outcome (W × Option Error))
    (other_change : FusisState → V → Outcome (V × Option Error)) (cs : List Command)
    (s u t : FusisState) (w w' : W) (v v' : V)
    → run_log change cs s w ≡ returned (u, w')
    → run_log other_change cs s v ≡ returned (t, v')
    → u ≡ t
replicas_agree change other_change cs s u t w w' v v' h k =
    ground (arith, run_log-replay change cs s u w w' h, run_log-replay other_change cs s t v v' k)

apply-change :
    {W : Type 0} (state_change : FusisState → W → Outcome (W × Option Error)) (c : Command)
    (s : FusisState) (w : W) {r : (FusisState × W) × Option Error}
    → apply state_change c s w ≡ returned r
    → state_change r.0.0 w ≡ returned (r.0.1, r.1)
unfolding apply
apply-change state_change c s w h = ground (arith, h)

-- After a log that is not empty, the machine is as the last change of the state left it.
pub run_log-last :
    {W : Type 0} (state_change : FusisState → W → Outcome (W × Option Error)) (cs : List Command)
    (c : Command) (s u : FusisState) (w w' : W)
    → run_log state_change (cs ++ c ∷ []) s w ≡ returned (u, w')
    → (v : W) × (e : Option Error) × (state_change u v ≡ returned (w', e))
unfolding run_log
run_log-last state_change [] c s u w w' h =
    let (r, now, later) =
      and_then-returned (apply state_change c s w) (λ r. returned (r.0.0, r.0.1)) h in
    let same : r.0.0 ≡ u = ground (arith, later) in
    let same' : r.0.1 ≡ w' = ground (arith, later) in
    (w, r.1, rw (← same) (rw (← same') (apply-change state_change c s w now)))
run_log-last state_change (d ∷ cs) c s u w w' h =
    let (r, _, later) =
      and_then-returned (apply state_change d s w)
        (λ r. run_log state_change (cs ++ c ∷ []) r.0.0 r.0.1) h in
    run_log-last state_change cs c r.0.0 u r.0.1 w' later
