-- ===== src/Balancer/Deletion.antt =====
-- What `DeleteService` does, and what becomes of the destinations of a deleted service.
use fusis.Prelude.{ap, String, ◌≡◌, ◌≢◌, refl, ◌∙◌, sym, eq_iff, Option, none, some, arith}
use fusis.Types.{Error, service_not_found, destination_already_exists, Result, ok, err, returned}
use fusis.Types.Service.{Service}
use fusis.Types.Destination.{Destination}
use fusis.Ipvs.State
use fusis.Ipvs.State.{FusisState}
use fusis.Ipvs.State.Laws.{get_service-delete_service, get_destination-delete_service}
use fusis.Ipvs.State.Invariant.{IsKeyed, get_service-name}
use fusis.Engine.{apply_command, del_service_op, del_destination_op}
use fusis.Balancer.{
  add_destination, add_to_service, add_if_unnamed, Platform, Node, delete_found, delete_service,
  delete_destination, delete_from_service, delete_known, apply_to_raft,
}
use fusis.Balancer.Raft.{Raft, refused, applied, apply_to_raft-Raft}

pub deleted_state :
    (svc : Service) (s u : FusisState)
    → apply_command (record { op = del_service_op; service = some svc; destination = none }) s
      ≡ returned u
    → u ≡ State.delete_service svc s
unfolding apply_command
deleted_state svc s u h = ground arith

module _ (platform : Platform) (verdict : Option Error) (name : String) (n : Node platform) where
  -- `DeleteService` of an unknown name returns its error and leaves the node as it is.
  pub delete_service_unknown :
      (x : Error)
      → State.get_service name n.state ≡ err x
      → delete_service platform verdict name n ≡ returned (n, some x)
  unfolding delete_service delete_found
  delete_service_unknown x h = rw h refl

  delete_found-applied :
      (svc : Service) {n' : Node platform}
      → delete_found platform verdict n (ok svc) ≡ returned (n', none)
      → n'.state ≡ State.delete_service svc n.state
  unfolding delete_found
  delete_found-applied svc {n'} h = by_raft (apply_to_raft-Raft platform verdict _ n h)
    where
      by_raft :
          Raft verdict
            (record { op = del_service_op; service = some svc; destination = none })
            n
            n'
            none
          → n'.state ≡ State.delete_service svc n.state
      by_raft (refused x _ _ failed) = cc
      by_raft (applied _ run _) = deleted_state svc n.state n'.state run

  -- If `DeleteService` returns no error, in a keyed state, its name finds no service afterwards,
  -- every other name finds what it found before, and every destination is still found, those of
  -- the deleted service too.
  pub delete_service-get :
      {n' : Node platform}
      → IsKeyed n.state
      → delete_service platform verdict name n ≡ returned (n', none)
      → (State.get_service name n'.state ≡ err service_not_found)
        × ((k : String) → name ≢ k → State.get_service k n'.state ≡ State.get_service k n.state)
        × ((k : String) → State.get_destination k n'.state ≡ State.get_destination k n.state)
  unfolding delete_service delete_found
  delete_service-get {n'} keyed h = by_found (State.get_service name n.state) refl h
    where
      by_found :
          (r : Result Service)
          → State.get_service name n.state ≡ r
          → delete_found platform verdict n r ≡ returned (n', none)
          → (State.get_service name n'.state ≡ err service_not_found)
            × ((k : String) → name ≢ k → State.get_service k n'.state ≡ State.get_service k n.state)
            × ((k : String) → State.get_destination k n'.state ≡ State.get_destination k n.state)
      by_found (err x) q g = absurd (ground arith)
      by_found (ok svc) q g =
          let same = get_service-name name n.state keyed q in
          let state = delete_found-applied svc g in
          (
            rw state (
                get_service-delete_service svc name n.state
                ∙ ground (arith, same, eq_iff svc.name name)),
            λ k ne. rw state (
                get_service-delete_service svc k n.state
                ∙ ground (arith, same, ne, eq_iff svc.name k)),
            λ k. rw state (get_destination-delete_service svc k n.state),
          )

-- A destination whose service is gone cannot be deleted: `DeleteDestination` returns "service not
-- found" and leaves the node, the destination included, as it is.
pub delete_destination_orphan :
    (platform : Platform) (verdict : Option Error) (dst : Destination) (n : Node platform)
    → State.get_service dst.service_id n.state ≡ err service_not_found
    → delete_destination platform verdict dst n ≡ returned (n, some service_not_found)
unfolding delete_destination
delete_destination_orphan platform verdict dst n h = rw h refl

pub deleted_destination :
    (svc : Service) (dst : Destination) (s u : FusisState)
    → apply_command
        (record { op = del_destination_op; service = some svc; destination = some dst })
        s
      ≡ returned u
    → u ≡ State.delete_destination dst s
unfolding apply_command
deleted_destination svc dst s u h = ground arith

module _ (platform : Platform) (dst : Destination) (n : Node platform) where
  -- If the service and the name of the destination are found and raft commits the command, the
  -- destination is deleted, whatever the response to the command.
  pub delete_destination-state :
      {n' : Node platform} {e : Option Error} {svc : Service} {found : Destination}
      → State.get_service dst.service_id n.state ≡ ok svc
      → State.get_destination dst.name n.state ≡ ok found
      → delete_destination platform none dst n ≡ returned (n', e)
      → n'.state ≡ State.delete_destination dst n.state
  unfolding delete_destination delete_from_service delete_known
  delete_destination-state {n'} {e} {svc} owned found h =
      by_raft (apply_to_raft-Raft platform none _ n (sym committed ∙ h))
    where
      committed :
          delete_destination platform none dst n
          ≡ apply_to_raft platform none
              (record { op = del_destination_op; service = some svc; destination = some dst })
              n
      committed = rw (owned, delete_destination) (rw (found, delete_from_service) refl)

      by_raft :
          Raft none
            (record { op = del_destination_op; service = some svc; destination = some dst })
            n
            n'
            e
          → n'.state ≡ State.delete_destination dst n.state
      by_raft (refused x stopped _ _) = cc
      by_raft (applied _ run _) = deleted_destination svc dst n.state n'.state run

-- After `DeleteService` without an error, in a keyed state, a destination of the service is stuck: it is
-- still found, `DeleteDestination` of it returns "service not found" and changes nothing, whatever raft
-- would say, and `AddDestination` of another destination under its name, to any service that exists,
-- returns "destination already exists" and changes nothing.
pub delete_service_orphans :
    (platform : Platform) (verdict later : Option Error) (name : String) (dst : Destination)
    (n : Node platform) {n' : Node platform}
    → IsKeyed n.state
    → State.get_destination dst.name n.state ≡ ok dst
    → dst.service_id ≡ name
    → delete_service platform verdict name n ≡ returned (n', none)
    → (State.get_destination dst.name n'.state ≡ ok dst)
      × (delete_destination platform later dst n' ≡ returned (n', some service_not_found))
      × ((svc found : Service) (new : Destination)
          → State.get_service svc.name n'.state ≡ ok found
          → new.name ≡ dst.name
          → add_destination platform later svc new n'
            ≡ returned (n', some destination_already_exists))
unfolding add_destination add_to_service add_if_unnamed
delete_service_orphans platform verdict later name dst n {n'} keyed there owned h =
    let (gone, _, kept) = delete_service-get platform verdict name n keyed h in
    let still : State.get_destination dst.name n'.state ≡ ok dst = kept dst.name ∙ there in
    (
      still,
      delete_destination_orphan platform later dst n'
          (ap (λ k. State.get_service k n'.state) owned ∙ gone),
      λ svc found new exists same.
          let taken : State.get_destination new.name n'.state ≡ ok dst =
            ap (λ k. State.get_destination k n'.state) same ∙ still in
          rw (exists, add_destination) (rw (taken, add_to_service) refl),
    )
