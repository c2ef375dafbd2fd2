-- ===== src/Balancer/Leave.antt =====
-- fusis/balancer.go: how a balancer leaves the cluster and shuts down.
pub mod Grace
use fusis.Prelude.{
  ℕ, zero, suc, ◌+◌, String, Bool, true, false, ltb, nat_beq, Option, none, some, List, [], ◌∷◌,
  ◌++◌, length, if◌then◌else◌,
}
use fusis.Types.{Error, Result, ok, err}

-- The `time` package in milliseconds, and the packages `raft` and `serf` as the leaving balancer sees
-- them. `clock i` is the time when the loop tests it for the `i`-th time, and `peers i` what the peer
-- store answers in that round.
pub record Surroundings : Type 0 where
  pub peers : ℕ → Result (List String)
  pub exclude_peer : List String → String → List String
  pub local_addr : String
  pub clock : ℕ → ℕ

-- What a shutdown does, in its order; an error that is only logged is part of the step.
pub data LeaveStep : Type 0 where
  check_failed : Error → LeaveStep
  left_lan : Option Error → LeaveStep
  timed_out : LeaveStep
  serf_down raft_down store_closed peers_cleared : LeaveStep

-- `raftRemoveGracePeriod`
abbrev pub raft_remove_grace_period : ℕ
raft_remove_grace_period = 5000

module _ (around : Surroundings) where
  open around use {peers, exclude_peer, local_addr, clock}

  -- `numOtherPeers`; a failure gives 0 with the error.
  unfoldable pub num_other_peers : Result (List String) → Result ℕ
  num_other_peers (err e) = err e
  num_other_peers (ok addrs) = ok (length (exclude_peer addrs local_addr))

  -- How the loop ends, or goes on after its sleep.
  abbrev pub polled : (ℕ → Option (ℕ × List LeaveStep)) → Result ℕ → Option (ℕ × List LeaveStep)
  polled again (err e) = some (0, check_failed e ∷ [])
  polled again (ok zero) = some (0, [])
  polled again (ok (suc n)) = again (suc n)

  -- `for numPeers > 0 && time.Now().Before(limit)`, on fuel.
  unfoldable pub await_removal : ℕ → ℕ → ℕ → ℕ → Option (ℕ × List LeaveStep)
  unfolding num_other_peers
  await_removal zero limit i num = none
  await_removal (suc fuel) limit i zero = some (0, [])
  await_removal (suc fuel) limit i (suc n) = elim (ltb (clock i) limit) [
    | false ↦ some (suc n, [])
    | true ↦ polled (await_removal fuel limit (suc i)) (num_other_peers (peers i))
  ]

  abbrev pub with_warning : Option (ℕ × List LeaveStep) → Option (List LeaveStep)
  with_warning none = none
  with_warning (some (zero, steps)) = some steps
  with_warning (some (suc n, steps)) = some (steps ++ timed_out ∷ [])

  abbrev pub prepend : List LeaveStep → Option (List LeaveStep) → Option (List LeaveStep)
  prepend steps none = none
  prepend steps (some more) = some (steps ++ more)

  -- `b.serf` may be nil; otherwise it has the result of its `Leave`.
  abbrev pub leave_lan : Option (Option Error) → List LeaveStep
  leave_lan none = []
  leave_lan (some result) = left_lan result ∷ []

  unfoldable pub leave_known :
      ℕ → ℕ → Bool → Option (Option Error) → Result ℕ → Option (List LeaveStep)
  unfolding await_removal
  leave_known fuel now leader serf (err e) = some (check_failed e ∷ [])
  leave_known fuel now true serf (ok n) = some (leave_lan serf)
  leave_known fuel now false serf (ok n) =
      prepend (leave_lan serf)
        (with_warning (await_removal fuel (now + raft_remove_grace_period) 0 n))

  -- `Leave` at the time `now`, from the peers that are known at first.
  unfoldable pub leave :
      ℕ → ℕ → Bool → Option (Option Error) → Result (List String) → Option (List LeaveStep)
  unfolding leave_known
  leave fuel now leader serf known = leave_known fuel now leader serf (num_other_peers known)

  abbrev close_store : Bool → List LeaveStep
  close_store true = store_closed ∷ []
  close_store false = []

  -- `Shutdown`: `stored` says whether there is a store on disk.
  unfoldable pub shutdown :
      ℕ → ℕ → Bool → Bool → Option (Option Error) → Result (List String) → Option (List LeaveStep)
  shutdown fuel now leader stored serf known = elim (leave fuel now leader serf known) [
    | none ↦ none
    | some steps ↦
        some (steps ++ (serf_down ∷ raft_down ∷ (close_store stored ++ peers_cleared ∷ [])))
  ]
