-- ===== src/Tests/Departures.antt =====
-- A run of the events of serf: an agent fails, then another that is not known, and a balancer leaves.
use fusis.Prelude.{
  refl, none, [], ◌∷◌, ◌≡◌, String, ◌==◌, List, Bool-cases, inl, inr, sym, ◌∙◌, arith, eq_iff,
}
use fusis.GoMap.{lookup}
use fusis.Types.{returned, ok}
use fusis.Types.Destination.{Destination}
use fusis.Ipvs.State
use fusis.Ipvs.State.{with_destinations}
use fusis.Ipvs.State.Without.{IsHosted, Without}
use fusis.Ipvs.State.Laws.{get_destination-stored, stored_destination}
use fusis.Balancer.{get_destination, delete_destination, delete_from_service, delete_known}
use fusis.Balancer.Cluster.{
  Member, MemberEvent, members_failed, members_left, is_balancer, handle_agent_leave,
  handle_member_leave, handle_member_events, handle_balancer_leave,
}
use fusis.Balancer.Cluster.Departures.{gone, handle_member_events-Without}
use fusis.Tests.Cluster.{lan, second}
use fusis.Tests.Balancer
use fusis.Tests.Balancer.{small, node, only_mail, first_mail}
use fusis.Tests.Reach.{post, with_post}

abbrev agent_one : Member lan
agent_one = record { name = "one"; addr = "192.168.0.1"; tags = ("role", "agent") ∷ [] }

abbrev stranger : Member lan
stranger = record { name = "two"; addr = "192.168.0.2"; tags = ("role", "agent") ∷ [] }

abbrev events : List (MemberEvent lan small)
events = members_left (second ∷ []) ∷ members_failed (agent_one ∷ stranger ∷ []) ∷ []

-- The agent fails, and its destination goes.
agent_failed :
    handle_member_events lan small (λ m. none) events [] (node with_post)
    ≡ returned ([], node only_mail)
unfolding Balancer.run handle_member_events handle_member_leave handle_agent_leave is_balancer
    handle_balancer_leave get_destination delete_destination delete_from_service delete_known
    State.delete_destination
agent_failed = refl

only_post :
    (k : String) (d : Destination)
    → stored_destination (lookup k with_post.destinations) ≡ ok d
    → (d.name ≡ k) × (d ≡ post)
unfolding lookup
only_post k d h = elim (Bool-cases ("one" == k)) [
  | inl e ↦ ground (arith, (eq_iff "one" k).0 e, rw e at h)
  | inr e ↦ ground (arith, rw e at h)
]

with_post-IsHosted : IsHosted with_post
unfolding State.get_service lookup
with_post-IsHosted = record {
  hosted = λ k d found.
      let (named, same) = only_post k d (sym (get_destination-stored k with_post) ∙ found) in
      (named, with_destinations with_post first_mail, rw same refl);
}

handle_member_events-Without_example : Without (λ k. gone lan small k events) with_post only_mail
handle_member_events-Without_example =
    handle_member_events-Without lan small events [] (node with_post) with_post-IsHosted
      agent_failed
