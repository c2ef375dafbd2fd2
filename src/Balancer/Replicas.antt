-- ===== src/Balancer/Replicas.antt =====
-- Balancers that apply one log, each on its own machine.
use fusis.Prelude.{String, ◌≡◌, refl, ◌∙◌, map, Option, Bool, true, List, [], ◌∷◌, ◌++◌, arith}
use fusis.Types.{Error, Outcome, returned}
use fusis.Types.Service
use fusis.Types.Service.{Service}
use fusis.Types.Destination.{Destination}
use fusis.Ipvs.State.{FusisState, get_services}
use fusis.Ipvs.Sync.Converges.{WorkingTable}
use fusis.Ipvs.Sync.Table.{WholeTable}
use fusis.Engine.{Command}
use fusis.Engine.Replication.{run_log}
use fusis.Engine.Replication.Replicas.{replicas_agree, run_log-last}
use fusis.Provider.None.{host_of}
use fusis.Provider.None.Converges.{WorkingInterface, on_interface}
use fusis.Balancer.{Platform, Machine, handle_state_change}
use fusis.Balancer.Exact.{CanServe, IsInLine, handle_state_change-exact}
use fusis.Diff.Laws.{HasDistinctKeys}

module _ (platform : Platform) (iface : String) (IsAddress : String → Type 0)
    (working : WorkingInterface platform.netlink iface IsAddress) (IsService : Service → Type 0)
    (IsDestination : Destination → Type 0)
    (table : WorkingTable platform.network platform.kernel IsService)
    (whole : WholeTable platform.network platform.kernel IsService IsDestination table) where
  open working use {vips}

  -- What the engine's `StateCh` does on a balancer.
  abbrev pub change :
      Bool → FusisState → Machine platform → Outcome (Machine platform × Option Error)
  change leader s m = handle_state_change platform leader iface s m

  ended-IsInLine :
      (leader : Bool) (s : FusisState) (v m' : Machine platform) (e : Option Error)
      → change leader s v ≡ returned (m', e)
      → CanServe platform iface IsAddress working IsService IsDestination table whole s
      → HasDistinctKeys Service.kernel_key (get_services s)
      → IsInLine platform iface IsAddress working IsService IsDestination table whole s m'
        × (leader ≡ true
            → (k : String)
            → on_interface k (vips m'.host) ≡ on_interface k (map host_of (get_services s)))
  ended-IsInLine leader s v m' e h can once =
      let (m'', done, in_line, on) =
        handle_state_change-exact platform iface IsAddress working IsService IsDestination table
          whole leader s v can once in
      let same : m'' ≡ m' = ground (arith, done, h) in
      (rw (← same) in_line, λ led k. rw (← same) (on k ∙ rw led refl))

  -- Two balancers start from one state, each on its own machine, and get through the same log, which is not
  -- empty: they end in one state. If a machine can serve that state, of which no two services have one
  -- kernel key, then whatever went wrong on the way, both tables hold, by kernel key, exactly its services,
  -- each with exactly its destinations, and a leader has exactly their hosts on its interface.
  pub replicas-IsInLine :
      (leader other : Bool) (cs : List Command) (c : Command) (s u t : FusisState)
      (m m' o o' : Machine platform)
      → run_log (change leader) (cs ++ c ∷ []) s m ≡ returned (u, m')
      → run_log (change other) (cs ++ c ∷ []) s o ≡ returned (t, o')
      → CanServe platform iface IsAddress working IsService IsDestination table whole u
      → HasDistinctKeys Service.kernel_key (get_services u)
      → (u ≡ t)
        × IsInLine platform iface IsAddress working IsService IsDestination table whole u m'
        × IsInLine platform iface IsAddress working IsService IsDestination table whole u o'
        × (leader ≡ true
            → (k : String)
            → on_interface k (vips m'.host) ≡ on_interface k (map host_of (get_services u)))
  replicas-IsInLine leader other cs c s u t m m' o o' h g can once =
      let agree =
        replicas_agree (change leader) (change other) (cs ++ c ∷ []) s u t m m' o o' h g in
      let (v, e, last) = run_log-last (change leader) cs c s u m m' h in
      let (v', e', last') = run_log-last (change other) cs c s t o o' g in
      let (first, on) = ended-IsInLine leader u v m' e last can once in
      let (second, _) = ended-IsInLine other u v' o' e' (rw agree last') can once in
      (agree, first, second, on)
