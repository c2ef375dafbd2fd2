-- ===== src/Tests/Reach.antt =====
-- A balancer that starts empty and gets a few calls.
use fusis.Prelude.{false, refl, none, some, [], ◌∷◌, ◌≡◌}
use fusis.Types.{service_not_found, returned}
use fusis.Types.Destination.{Destination}
use fusis.Ipvs.State.{FusisState, new_fusis_state}
use fusis.Balancer.{Node, add_destination, delete_service, delete_destination, delete_from_service}
use fusis.Balancer.Reach.{
  service_added, service_deleted, destination_added, destination_deleted, elsewhere, replicated,
  Reach, start, step, IsSound, new_fusis_state-IsSound, reach-IsSound,
}
use fusis.Tests.Samples.{one}
use fusis.Tests.Balancer
use fusis.Tests.Balancer.{small, node, mail, first_mail, only_mail, added_first}

abbrev pub post : Destination
post = record one { service_id = "mail" }

abbrev pub with_post : FusisState
with_post = record only_mail { destinations = ("one", post) ∷ [] }

abbrev no_mail : FusisState
no_mail = record with_post { services = [] }

abbrev lost : FusisState → Node small
lost s = record (node s) { leader = false }

added_post : add_destination small none mail post (node only_mail) ≡ returned (node with_post, none)
unfolding Balancer.run
added_post = refl

deleted_mail : delete_service small none "mail" (node with_post) ≡ returned (node no_mail, none)
unfolding Balancer.run
deleted_mail = refl

refused_post :
    delete_destination small none post (node no_mail)
    ≡ returned (node no_mail, some service_not_found)
unfolding Balancer.run delete_destination delete_from_service
refused_post = refl

-- A service that another balancer was asked for is replicated. Then the balancer becomes the leader, a
-- destination is added, the service is deleted, the destination cannot be deleted, and the balancer is no
-- longer the leader.
abbrev calls : Reach (lost new_fusis_state) (lost no_mail)
calls =
    step
      (step
        (step
          (step
            (step
              (step start (
                replicated (node new_fusis_state) (node only_mail) refl
                  (service_added 4 none mail first_mail none added_first) refl))
              (elsewhere {n = lost only_mail} {n' = node only_mail} refl))
            (destination_added none mail post none added_post))
          (service_deleted none "mail" none deleted_mail))
        (destination_deleted none post (some service_not_found) refused_post))
      (elsewhere refl)

reach-IsSound_example : IsSound no_mail
reach-IsSound_example =
    reach-IsSound new_fusis_state-IsSound calls ((((((tt, tt), tt), refl), tt), tt), tt)
