-- ===== src/Balancer/Leave/Grace.antt =====
-- The wait of a leaving balancer: it ends within the grace period, and does not give up before.
use fusis.Prelude.{
  ℕ, zero, suc, ◌+◌, ◌*◌, ◌<◌, ◌≤◌, ◌≡◌, refl, inl, inr, true, false, Bool-cases, ltb, Option, some,
  List, [], arith, ap, ◌∙◌, append-nil,
}
use fusis.Types.{Error, Result, ok, err}
use fusis.Balancer.Leave.{
  Surroundings, LeaveStep, num_other_peers, polled, await_removal, leave_known, prepend, leave_lan,
  with_warning, raft_remove_grace_period,
}

-- `time.Sleep(50 * time.Millisecond)` pauses for at least its duration.
abbrev pub Sleeps : Surroundings → Type 0
Sleeps around = (i : ℕ) → around.clock i + 50 ≤ around.clock (suc i)

-- 5000 milliseconds of grace, with 50 between two tests of the time.
abbrev pub rounds_of_grace : ℕ
rounds_of_grace = 101

module _ (around : Surroundings) where
  open around use {peers, clock}

  -- How the wait may end after the test number `i`: no peer is left, the peers could not be read, or
  -- the time was up at a later test.
  abbrev pub Ended : ℕ → ℕ → ℕ × List LeaveStep → Type 0
  Ended limit i (zero, steps) = Unit
  Ended limit i (suc n, steps) = (j : ℕ) × (i ≤ j) × (limit ≤ clock j) × (steps ≡ [])

  later-Ended : (limit i : ℕ) (r : ℕ × List LeaveStep) → Ended limit (suc i) r → Ended limit i r
  later-Ended limit i (zero, steps) h = tt
  later-Ended limit i (suc n, steps) (j, le, up, clean) = (j, omega (arith, le), up, clean)

  abbrev pub Ends : ℕ → ℕ → Option (ℕ × List LeaveStep) → Type 0
  Ends limit i o = (r : ℕ × List LeaveStep) × (o ≡ some r) × Ended limit i r

  polled-Ends :
      (limit i : ℕ) (again : ℕ → Option (ℕ × List LeaveStep)) (answer : Result ℕ)
      → ((n : ℕ) → Ends limit (suc i) (again n))
      → Ends limit i (polled around again answer)
  polled-Ends limit i again (err e) h = (_, refl, tt)
  polled-Ends limit i again (ok zero) h = (_, refl, tt)
  polled-Ends limit i again (ok (suc n)) h =
      let (r, e, ended) = h (suc n) in (r, e, later-Ended limit i r ended)

  await_removal-Ends :
      (sleeps : Sleeps around) (rounds limit i num : ℕ)
      → limit ≤ clock i + rounds * 50
      → Ends limit i (await_removal around (suc rounds) limit i num)
  unfolding await_removal
  await_removal-Ends sleeps rounds limit i zero h = (_, refl, tt)
  await_removal-Ends sleeps zero limit i (suc n) h =
      let up : ltb (clock i) limit ≡ false = ground (arith, h) in
      rw (up, await_removal) ((suc n, []), refl, (i, omega arith, omega (arith, h), refl))
  await_removal-Ends sleeps (suc rounds) limit i (suc n) h =
      elim (Bool-cases (ltb (clock i) limit)) [
        | inl e ↦
            rw (e, await_removal)
              (polled-Ends limit i (await_removal around (suc rounds) limit (suc i))
                (num_other_peers around (peers i))
                (λ m.
                  await_removal-Ends sleeps rounds limit (suc i) m (omega (arith, sleeps i, h))))
        | inr e ↦
            rw (e, await_removal) ((suc n, []), refl, (i, omega arith, ground (arith, e), refl))
      ]

  -- The peers that round `i` counts.
  abbrev pub count_at : ℕ → Result ℕ
  count_at i = num_other_peers around (peers i)

  -- No round between `i` and `i + rounds` fails.
  abbrev pub Readable : ℕ → ℕ → Type 0
  Readable i zero = Unit
  Readable i (suc rounds) = ((n : ℕ) × (count_at i ≡ ok n)) × Readable (suc i) rounds

  clock-le : Sleeps around → (rounds i : ℕ) → clock i ≤ clock (i + rounds)
  clock-le sleeps zero i = let e : i + 0 ≡ i = omega arith in rw e (omega arith)
  clock-le sleeps (suc rounds) i =
      let e : i + suc rounds ≡ suc i + rounds = omega arith in
      rw e (omega (arith, sleeps i, clock-le sleeps rounds (suc i)))

  -- A round in time that counts `m` peers.
  await_removal-polls :
      (fuel limit i n m : ℕ)
      → clock i < limit
      → count_at i ≡ ok m
      → await_removal around (suc fuel) limit i (suc n)
        ≡ polled around (await_removal around fuel limit (suc i)) (ok m)
  unfolding await_removal
  await_removal-polls fuel limit i n m soon here =
      let e : ltb (clock i) limit ≡ true = ground (arith, soon) in
      rw (e, await_removal) (ap (polled around (await_removal around fuel limit (suc i))) here)

  polled-none :
      (again : ℕ → Option (ℕ × List LeaveStep)) (m : ℕ)
      → ((k : ℕ) → again k ≡ some (0, []))
      → polled around again (ok m) ≡ some (0, [])
  polled-none again zero h = refl
  polled-none again (suc m) h = h (suc m)

  -- If the round `rounds` later counts no peer, in time, the wait ends with none left and no warning.
  await_removal-removed :
      (sleeps : Sleeps around) (rounds fuel limit i num : ℕ)
      → rounds < fuel
      → Readable i rounds
      → count_at (i + rounds) ≡ ok 0
      → clock (i + rounds) < limit
      → await_removal around fuel limit i num ≡ some (0, [])
  unfolding await_removal
  await_removal-removed sleeps rounds zero limit i num lt readable gone soon =
      absurd (omega (arith, lt))
  await_removal-removed sleeps rounds (suc fuel) limit i zero lt readable gone soon = refl
  await_removal-removed sleeps zero (suc fuel) limit i (suc n) lt readable gone soon =
      let e : i + 0 ≡ i = omega arith in
      await_removal-polls fuel limit i n 0 (rw e at soon) (rw e at gone)
  await_removal-removed sleeps (suc rounds) (suc fuel) limit i (suc n) lt ((m, here), more) gone
        soon =
      let e : i + suc rounds ≡ suc i + rounds = omega arith in
      await_removal-polls fuel limit i n m (omega (arith, soon, clock-le sleeps (suc rounds) i))
        here
      ∙ polled-none (await_removal around fuel limit (suc i)) m (λ k.
        await_removal-removed sleeps rounds fuel limit (suc i) k (omega (arith, lt)) more
          (rw e at gone) (rw e at soon))

  -- `Leave` of a balancer that is not the leader, at the time `now`, where each round of its wait
  -- sleeps 50 milliseconds at least: the wait ends within 101 rounds. It ends with a warning only if a
  -- test of the time came at the end of the 5 seconds of grace or later while peers were left.
  pub leave-ends :
      (now num : ℕ) (serf : Option (Option Error))
      → Sleeps around
      → now ≤ clock 0
      → (r : ℕ × List LeaveStep) × (leave_known around rounds_of_grace now false serf (ok num)
          ≡ prepend around (leave_lan around serf) (with_warning around (some r)))
        × Ended (now + raft_remove_grace_period) 0 r
  unfolding leave_known
  leave-ends now num serf sleeps later =
      let (r, e, ended) =
        await_removal-Ends sleeps 100 (now + raft_remove_grace_period) 0 num
          (omega (arith, later)) in
      (r, rw (e, leave_known) refl, ended)

  -- If some round of the wait finds no other peer, within the 5 seconds of grace, and the rounds before
  -- could read the peers, `Leave` of a balancer that is not the leader leaves the network and gives no
  -- warning.
  pub leave-graceful :
      (now num rounds : ℕ) (serf : Option (Option Error))
      → Sleeps around
      → rounds < rounds_of_grace
      → Readable 0 rounds
      → count_at rounds ≡ ok 0
      → clock rounds < now + raft_remove_grace_period
      → leave_known around rounds_of_grace now false serf (ok num) ≡ some (leave_lan around serf)
  unfolding leave_known
  leave-graceful now num rounds serf sleeps few readable gone soon =
      let z : 0 + rounds ≡ rounds = omega arith in
      rw
        (
          await_removal-removed sleeps rounds rounds_of_grace (now + raft_remove_grace_period) 0 num
              few readable (rw z gone) (rw z soon),
          leave_known,
        )
        (ap some (append-nil _))
