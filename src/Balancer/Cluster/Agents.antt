-- ===== src/Balancer/Cluster/Agents.antt =====
-- What becomes of the destination that an agent announced when the agent leaves.
use fusis.Prelude.{String, ◌≡◌, ◌≢◌, sym, ap, ◌∙◌, eq_iff, Option, none, arith}
use fusis.Types.{Error, Result, ok, err, Outcome, returned, panicked, destination_not_found}
use fusis.Types.Service.{Service}
use fusis.Types.Destination.{Destination}
use fusis.Ipvs.State
use fusis.Ipvs.State.{FusisState}
use fusis.Ipvs.State.Laws.{get_destination-delete_destination}
use fusis.Config.{AgentConfig}
use fusis.Agent.{announcement}
use fusis.Balancer.{Platform, Node, get_destination, delete_destination}
use fusis.Balancer.Deletion.{delete_destination-state}
use fusis.Balancer.Cluster.{Membership, Member, handle_agent_leave, delete_agent, after_delete}

module _ (platform : Platform) (membership : Membership) where
  pub after_delete-returned :
      (r : Outcome (Node platform × Option Error)) (n' : Node platform)
      → after_delete membership platform r ≡ returned n'
      → (e : Option Error) × (r ≡ returned (n', e))
  after_delete-returned panicked n' h = cc
  after_delete-returned (returned (n, e)) n' h = (e, ground (arith, h))

  -- If an agent leaves whose destination is stored as it was announced, with a service that exists,
  -- and raft commits the deletion, the agent's name finds no destination
  -- afterwards, every other name finds what it found before, and so does every service but for its
  -- destinations.
  pub handle_agent_leave-gone :
      (c : AgentConfig) (host : String) (m : Member membership) (n n' : Node platform)
      {svc : Service}
      → m.name ≡ c.name
      → State.get_destination c.name n.state ≡ ok (announcement c host)
      → State.get_service c.service n.state ≡ ok svc
      → handle_agent_leave membership platform none m n ≡ returned n'
      → (State.get_destination c.name n'.state ≡ err destination_not_found)
        × ((k : String)
            → c.name ≢ k
            → State.get_destination k n'.state ≡ State.get_destination k n.state)
        × (n'.state.services ≡ n.state.services)
  unfolding handle_agent_leave get_destination announcement State.delete_destination
  handle_agent_leave-gone c host m n n' named found owned h =
      let dst = announcement c host in
      let run : after_delete membership platform (delete_destination platform none dst n)
          ≡ returned n' =
        sym (
          ap (λ (r : Result Destination). delete_agent membership platform none r n)
            (ap (λ k. State.get_destination k n.state) named ∙ found))
        ∙ h in
      let (e, done) = after_delete-returned (delete_destination platform none dst n) n' run in
      let state = delete_destination-state platform dst n owned found done in
      (
        rw state (
            get_destination-delete_destination dst c.name n.state
            ∙ ground (arith, eq_iff c.name c.name)),
        λ k ne. rw state (
            get_destination-delete_destination dst k n.state ∙ ground (arith, ne, eq_iff c.name k)),
        ap (λ (s : FusisState). s.services) state,
      )
