-- ===== src/Tests/Leadership.antt =====
-- The interface of a balancer as the leader changes, its leave, and its start.
use fusis.Prelude.{
  ℕ, zero, suc, ◌+◌, ◌*◌, String, ◌≡◌, refl, eq_iff, true, false, none, some, List, [], ◌∷◌, map,
  arith,
}
use fusis.GoMap.{values}
use fusis.Types.{Result, ok, returned}
use fusis.Ipvs.State.{get_services, with_destinations}
use fusis.Provider.None.{host_of, itself}
use fusis.Provider.None.Converges.{on_interface}
use fusis.Diff.Laws.{HasDistinctKeys}
use fusis.Balancer.Leadership.{watch_leader_changes}
use fusis.Balancer.Leadership.Holders.{FlushableInterface, watch_leader_changes-holds}
use fusis.Balancer.Leave.{
  Surroundings, LeaveStep, left_lan, num_other_peers, leave_known, with_warning, prepend,
}
use fusis.Balancer.Leave.Grace.{leave-ends, leave-graceful, rounds_of_grace, Ended}
use fusis.Tests.Samples.{saved}
use fusis.Tests.Interface
use fusis.Tests.Interface.{ideal, working, keep, Addresses}

keep-absent : (ip : String) (l : List String) → on_interface ip l ≡ false → keep ip l ≡ l
unfolding keep
keep-absent ip [] h = refl
keep-absent ip (a ∷ l) h = ground (arith, keep-absent ip l, eq_iff ip a, eq_iff a ip, h)

keep-head :
    (a : String) (l rest : List String) → HasDistinctKeys itself l → l ≡ a ∷ rest → keep a l ≡ rest
unfolding keep
keep-head a [] rest h e = cc
keep-head a (b ∷ l) rest h e = ground (arith, keep-absent a l, eq_iff a b, eq_iff a a, h.0, e)

pub flushable_ideal : FlushableInterface ideal "eth0"
flushable_ideal = record {
  link = "eth0";
  own = λ h. "192.168.0.254";
  others = λ h. h.0;
  has_link = λ h. refl;
  lists = λ h. refl;
  deletes = λ a rest h e. (refl, keep-head a h.0 rest h.1 e);
}

-- The balancer loses the leadership and gets it back.
watch_leader_changes-holds_example :
    (h' : Addresses) × (watch_leader_changes ideal
        ((true, saved) ∷ (false, saved) ∷ (true, saved) ∷ [])
        "eth0"
        Interface.before
      ≡ returned h')
    × ((k : String)
        → on_interface k (working.vips h') ≡ on_interface k (map host_of (get_services saved)))
unfolding get_services with_destinations values
watch_leader_changes-holds_example =
    watch_leader_changes-holds ideal "eth0" flushable_ideal (λ ip. Unit {0}) working
      ((true, saved) ∷ (false, saved) ∷ []) true saved Interface.before
      ((tt, (tt, tt)), ((tt, (tt, tt)), tt)) (tt, (tt, tt))

-- The clock gives a round for each 60 milliseconds, and the second round finds no other peer.
abbrev peers_at : ℕ → Result (List String)
peers_at zero = ok ("10.0.0.2:4382" ∷ [])
peers_at (suc i) = ok []

abbrev leaving : Surroundings
leaving = record {
  peers = peers_at;
  exclude_peer = λ addrs addr. addrs;
  local_addr = "10.0.0.1:4382";
  clock = λ i. 1000 + i * 60;
}

leave-ends_example :
    (r : ℕ × List LeaveStep) × (leave_known leaving rounds_of_grace 1000 false (some none) (ok 1)
      ≡ prepend leaving (left_lan none ∷ []) (with_warning leaving (some r)))
    × Ended leaving 6000 0 r
leave-ends_example = leave-ends leaving 1000 1 (some none) (λ i. omega arith) (omega arith)

leave-graceful_example :
    leave_known leaving rounds_of_grace 1000 false (some none) (ok 1) ≡ some (left_lan none ∷ [])
unfolding num_other_peers
leave-graceful_example =
    leave-graceful leaving 1000 1 1 (some none) (λ i. omega arith) (omega arith) ((1, refl), tt)
      refl (omega arith)
