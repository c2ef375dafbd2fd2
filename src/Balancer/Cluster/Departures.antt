-- ===== src/Balancer/Cluster/Departures.antt =====
-- The destinations and services of a balancer after a run of the events of serf.
use fusis.Prelude.{
  String, ◌==◌, Bool, true, false, not, ◌&&◌, ◌||◌, Bool-cases, inl, inr, List, [], ◌∷◌, ◌≡◌, refl,
  sym, ap, ◌∙◌, none, eq_iff, arith, if◌then◌else◌,
}
use fusis.Types.{Result, ok, err, Outcome, returned, panicked, destination_not_found}
use fusis.Types.Destination.{Destination}
use fusis.Ipvs.State
use fusis.Ipvs.State.Without.{
  IsHosted, Without, none-Without, both-Without, Without-IsHosted, found_or_not, deleted-Without,
}
use fusis.Balancer.{Platform, Node, get_destination, delete_destination}
use fusis.Balancer.Deletion.{delete_destination-state}
use fusis.Balancer.Cluster.{
  Membership, Member, MemberEvent, is_balancer, members_joined, members_failed, members_left,
  unhandled, after_delete, delete_agent, handle_agent_leave, with_peers, leave_one, after_one,
  handle_member_leave, handle_member_event, handle_member_events, handle_balancer_leave,
}
use fusis.Balancer.Cluster.Agents.{after_delete-returned}

module _ (membership : Membership) (platform : Platform) where
  open membership use {Peers}

  -- The member is no balancer and has this name.
  abbrev pub departs : String → Member membership → Bool
  departs k m = not (is_balancer membership m) && m.name == k

  abbrev pub departed : String → List (Member membership) → Bool
  departed k [] = false
  departed k (m ∷ ms) = departs k m || departed k ms

  -- Some member that is no balancer failed or left under this name.
  abbrev pub gone_in : String → MemberEvent membership platform → Bool
  gone_in k (members_joined ms) = false
  gone_in k (members_failed ms) = departed k ms
  gone_in k (members_left ms) = departed k ms
  gone_in k unhandled = false

  abbrev pub gone : String → List (MemberEvent membership platform) → Bool
  gone k [] = false
  gone k (e ∷ es) = gone_in k e || gone k es

  agent_leave-Without :
      (m : Member membership) (n n' : Node platform)
      → IsHosted n.state
      → handle_agent_leave membership platform none m n ≡ returned n'
      → Without (λ k. m.name == k) n.state n'.state
  unfolding handle_agent_leave get_destination
  agent_leave-Without m n n' hosted h = elim (found_or_not m.name n.state) [
    | inl missing ↦ unknown missing (sym (with_result missing) ∙ h)
    | inr (d, found) ↦ known d found (sym (with_result found) ∙ h)
  ]
    where
      with_result :
          {r : Result Destination}
          → State.get_destination m.name n.state ≡ r
          → delete_agent membership platform none (State.get_destination m.name n.state) n
            ≡ delete_agent membership platform none r n
      with_result e = ap (λ r. delete_agent membership platform none r n) e

      unknown :
          State.get_destination m.name n.state ≡ err destination_not_found
          → returned n ≡ returned n'
          → Without (λ k. m.name == k) n.state n'.state
      unknown missing g =
          let same : n ≡ n' = ground arith in
          rw (← same) (record {
            destinations = λ k. elim (Bool-cases (m.name == k)) [
              | inl e ↦ rw e (rw ((eq_iff m.name k).0 e) at missing)
              | inr e ↦ rw e refl
            ];
            services = refl;
          })

      known :
          (d : Destination)
          → State.get_destination m.name n.state ≡ ok d
          → after_delete membership platform (delete_destination platform none d n) ≡ returned n'
          → Without (λ k. m.name == k) n.state n'.state
      known d found g =
          let (named, svc, exists) = hosted.hosted m.name d found in
          let (e, done) =
            after_delete-returned platform membership (delete_destination platform none d n) n' g in
          let state =
            delete_destination-state platform d n exists
              (ap (λ k. State.get_destination k n.state) named ∙ found) done in
          rw state (deleted-Without d named n.state)

  abbrev Loop : Type 0
  Loop = Outcome (Peers × Node platform)

  -- A run of two parts, each of which takes some destinations away.
  then-Without :
      (g h : String → Bool) (n : Node platform) (rest : Peers → Node platform → Loop) (o : Loop)
      {qs : Peers} {n' : Node platform}
      → IsHosted n.state
      → ((ps : Peers) (m : Node platform) → o ≡ returned (ps, m) → Without g n.state m.state)
      → ((ps : Peers) (m : Node platform)
          → IsHosted m.state
          → rest ps m ≡ returned (qs, n')
          → Without h m.state n'.state)
      → after_one membership platform rest o ≡ returned (qs, n')
      → Without (λ k. g k || h k) n.state n'.state
  then-Without g h n rest panicked hosted first later run = cc
  then-Without g h n rest (returned (ps, m)) {qs} {n'} hosted first later run =
      let one : Without g n.state m.state = first ps m refl in
      both-Without g h n.state m.state n'.state one
        (later ps m (Without-IsHosted g n.state m.state hosted one) run)

  leave_one-Without :
      (m : Member membership) (ps : Peers) (n : Node platform) {qs : Peers} {n' : Node platform}
      → IsHosted n.state
      → leave_one membership platform (λ a. none) m ps n ≡ returned (qs, n')
      → Without (λ k. departs k m) n.state n'.state
  leave_one-Without m ps n {qs} {n'} hosted h = by_role (is_balancer membership m) h
    where
      by_agent :
          (o : Outcome (Node platform))
          → handle_agent_leave membership platform none m n ≡ o
          → with_peers membership platform ps o ≡ returned (qs, n')
          → Without (λ k. m.name == k) n.state n'.state
      by_agent panicked e g = cc
      by_agent (returned u) e g =
          let same : u ≡ n' = ground (arith, g) in rw (← same) (agent_leave-Without m n u hosted e)

      by_role :
          (b : Bool)
          → (if b
              then returned (handle_balancer_leave membership n.leader m ps, n)
              else with_peers membership platform ps
                  (handle_agent_leave membership platform none m n))
            ≡ returned (qs, n')
          → Without (λ k. not b && m.name == k) n.state n'.state
      by_role true g = let same : n ≡ n' = ground (arith, g) in rw (← same) (none-Without n.state)
      by_role false g = by_agent _ refl g

  handle_member_leave-Without :
      (ms : List (Member membership)) (ps : Peers) (n : Node platform) {qs : Peers}
      {n' : Node platform}
      → IsHosted n.state
      → handle_member_leave membership platform (λ a. none) ms ps n ≡ returned (qs, n')
      → Without (λ k. departed k ms) n.state n'.state
  unfolding handle_member_leave
  handle_member_leave-Without [] ps n {qs} {n'} hosted h =
      let same : n ≡ n' = ground (arith, h) in rw (← same) (none-Without n.state)
  handle_member_leave-Without (m ∷ ms) ps n hosted h =
      then-Without (λ k. departs k m) (λ k. departed k ms) n _ _ hosted
        (λ qs u e. leave_one-Without m ps n hosted e)
        (λ qs u there e. handle_member_leave-Without ms qs u there e) h

  handle_member_event-Without :
      (event : MemberEvent membership platform) (ps : Peers) (n : Node platform) {qs : Peers}
      {n' : Node platform}
      → IsHosted n.state
      → handle_member_event membership platform (λ a. none) event ps n ≡ returned (qs, n')
      → Without (λ k. gone_in k event) n.state n'.state
  handle_member_event-Without (members_joined ms) ps n {qs} {n'} hosted h =
      let same : n ≡ n' = ground (arith, h) in rw (← same) (none-Without n.state)
  handle_member_event-Without (members_failed ms) ps n hosted h =
      handle_member_leave-Without ms ps n hosted h
  handle_member_event-Without (members_left ms) ps n hosted h =
      handle_member_leave-Without ms ps n hosted h
  handle_member_event-Without unhandled ps n {qs} {n'} hosted h =
      let same : n ≡ n' = ground (arith, h) in rw (← same) (none-Without n.state)

  -- A balancer whose destinations are stored under their names, with services that exist, handles any
  -- events of serf, and raft commits every deletion. If it returns, exactly the destinations are gone
  -- that have the name of a member that is no balancer and that failed or left; every other name finds
  -- what it found before, and the services are the same.
  pub handle_member_events-Without :
      (events : List (MemberEvent membership platform)) (ps : Peers) (n : Node platform)
      {qs : Peers} {n' : Node platform}
      → IsHosted n.state
      → handle_member_events membership platform (λ a. none) events ps n ≡ returned (qs, n')
      → Without (λ k. gone k events) n.state n'.state
  unfolding handle_member_events
  handle_member_events-Without [] ps n {qs} {n'} hosted h =
      let same : n ≡ n' = ground (arith, h) in rw (← same) (none-Without n.state)
  handle_member_events-Without (e ∷ es) ps n hosted h =
      then-Without (λ k. gone_in k e) (λ k. gone k es) n _ _ hosted
        (λ qs u g. handle_member_event-Without e ps n hosted g)
        (λ qs u there g. handle_member_events-Without es qs u there g) h
