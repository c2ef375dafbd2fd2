-- ===== src/Balancer/Reach.antt =====
-- The states that the operations of a balancer can reach, in whatever order they are called.
pub mod Served
use fusis.Prelude.{ℕ, String, ◌≡◌, ap, ◌∙◌, sym, ◌⊎◌, inl, inr, Option, none, some, arith}
use fusis.Types.{Error, Result, ok, err, returned}
use fusis.Types.Service.{Service}
use fusis.Types.Destination.{Destination}
use fusis.Ipvs.State
use fusis.GoMap.{lookup}
use fusis.Ipvs.State.{FusisState, new_fusis_state}
use fusis.Ipvs.State.Laws.{
  get_destination-add_service, get_destination-delete_service, get_destination-delete_destination,
}
use fusis.Ipvs.State.Invariant.{
  IsKeyed, new_fusis_state-IsKeyed, add_service-IsKeyed, delete_service-IsKeyed,
  add_destination-IsKeyed, delete_destination-IsKeyed,
}
use fusis.Ipvs.State.Hosts.{
  HasDistinctHosts, delete_service-HasDistinctHosts, add_destination-HasDistinctHosts,
  delete_destination-HasDistinctHosts,
}
use fusis.Engine.{del_service_op, del_destination_op}
use fusis.Balancer.{
  Platform, Node, add_service, delete_service, add_destination, delete_destination, delete_found,
  delete_from_service, delete_known,
}
use fusis.Balancer.Raft.{Raft, refused, applied, apply_to_raft-Raft}
use fusis.Balancer.Services
use fusis.Balancer.Services.{add_service-Adding, add_service_hosts}
use fusis.Balancer.Destinations
use fusis.Balancer.Destinations.{
  HasDistinctAddresses, add_destination-Adding, add_destination-HasDistinctAddresses,
}
use fusis.Balancer.Deletion.{deleted_state, deleted_destination}

-- One call on a balancer, whatever raft says to it and whatever it returns; or such a call on another
-- balancer that holds the same state, whose effect is replicated; or a change of anything but the services
-- and destinations, such as of the machine or of the leader.
pub data Step {platform : Platform} : Node platform → Node platform → Type 0 where
  service_added :
      {n n' : Node platform} (fuel : ℕ) (verdict : Option Error) (svc svc' : Service)
      (e : Option Error)
      → add_service platform fuel verdict svc n ≡ some (returned (n', svc', e))
      → Step n n'
  service_deleted :
      {n n' : Node platform} (verdict : Option Error) (name : String) (e : Option Error)
      → delete_service platform verdict name n ≡ returned (n', e)
      → Step n n'
  destination_added :
      {n n' : Node platform} (verdict : Option Error) (svc : Service) (dst : Destination)
      (e : Option Error)
      → add_destination platform verdict svc dst n ≡ returned (n', e)
      → Step n n'
  destination_deleted :
      {n n' : Node platform} (verdict : Option Error) (dst : Destination) (e : Option Error)
      → delete_destination platform verdict dst n ≡ returned (n', e)
      → Step n n'
  replicated :
      {n n' : Node platform} (m m' : Node platform)
      → m.state ≡ n.state
      → Step m m'
      → n'.state ≡ m'.state
      → Step n n'
  elsewhere : {n n' : Node platform} → n'.state ≡ n.state → Step n n'

pub data Reach {platform : Platform} (n : Node platform) : Node platform → Type 0 where
  start : Reach n n
  step : {m n' : Node platform} → Reach n m → Step m n' → Reach n n'

-- The calls of a run that add a destination add it to the service that it names.
abbrev pub StepOwned : {platform : Platform} {n n' : Node platform} → Step n n' → Type 0
StepOwned (service_added fuel verdict svc svc' e r) = Unit
StepOwned (service_deleted verdict name e r) = Unit
StepOwned (destination_added verdict svc dst e r) = dst.service_id ≡ svc.name
StepOwned (destination_deleted verdict dst e r) = Unit
StepOwned (replicated m m' before s after) = StepOwned s
StepOwned (elsewhere same) = Unit

abbrev pub AllOwned : {platform : Platform} {n n' : Node platform} → Reach n n' → Type 0
AllOwned start = Unit
AllOwned (step r s) = AllOwned r × StepOwned s

-- Each service and each destination stands under its name, once, and no two services share an
-- address, those without one aside.
pub record HasOwnHosts (s : FusisState) : Type 0 where
  pub keyed : IsKeyed s
  pub hosts : HasDistinctHosts s

-- Each service and each destination stands under its name, once; no two services share an address,
-- those without one aside; and no two destinations of a service share host and port.
pub record IsSound (s : FusisState) : Type 0 where
  pub keyed : IsKeyed s
  pub hosts : HasDistinctHosts s
  pub addresses : HasDistinctAddresses s

module _ (platform : Platform) (verdict : Option Error) (n : Node platform) {n' : Node platform}
    {e : Option Error} where
  -- `DeleteService` leaves the state as it is, or deletes a service from it.
  delete_service_state :
      (name : String)
      → delete_service platform verdict name n ≡ returned (n', e)
      → (n'.state ≡ n.state) ⊎ ((svc : Service) × (n'.state ≡ State.delete_service svc n.state))
  unfolding delete_service delete_found
  delete_service_state name h = by_found (State.get_service name n.state) h
    where
      by_raft :
          (svc : Service)
          → Raft verdict
              (record { op = del_service_op; service = some svc; destination = none })
              n
              n'
              e
          → (n'.state ≡ n.state) ⊎ ((svc : Service) × (n'.state ≡ State.delete_service svc n.state))
      by_raft svc (refused x _ stays _) = inl (ap (λ (k : Node platform). k.state) stays)
      by_raft svc (applied _ run _) = inr (svc, deleted_state svc n.state n'.state run)

      by_found :
          (r : Result Service)
          → delete_found platform verdict n r ≡ returned (n', e)
          → (n'.state ≡ n.state) ⊎ ((svc : Service) × (n'.state ≡ State.delete_service svc n.state))
      by_found (err x) g = inl (ground arith)
      by_found (ok svc) g = by_raft svc (apply_to_raft-Raft platform verdict _ n g)

  delete_destination_state :
      (dst : Destination)
      → delete_destination platform verdict dst n ≡ returned (n', e)
      → (n'.state ≡ n.state) ⊎ (n'.state ≡ State.delete_destination dst n.state)
  unfolding delete_destination delete_from_service delete_known
  delete_destination_state dst h = by_service (State.get_service dst.service_id n.state) h
    where
      by_raft :
          (svc : Service)
          → Raft verdict
              (record { op = del_destination_op; service = some svc; destination = some dst })
              n
              n'
              e
          → (n'.state ≡ n.state) ⊎ (n'.state ≡ State.delete_destination dst n.state)
      by_raft svc (refused x _ stays _) = inl (ap (λ (k : Node platform). k.state) stays)
      by_raft svc (applied _ run _) = inr (deleted_destination svc dst n.state n'.state run)

      by_known :
          (svc : Service) (r : Result Destination)
          → delete_known platform verdict dst n svc r ≡ returned (n', e)
          → (n'.state ≡ n.state) ⊎ (n'.state ≡ State.delete_destination dst n.state)
      by_known svc (err x) g = inl (ground arith)
      by_known svc (ok found) g = by_raft svc (apply_to_raft-Raft platform verdict _ n g)

      by_service :
          (r : Result Service)
          → delete_from_service platform verdict dst n r ≡ returned (n', e)
          → (n'.state ≡ n.state) ⊎ (n'.state ≡ State.delete_destination dst n.state)
      by_service (err x) g = inl (ground arith)
      by_service (ok svc) g = by_known svc _ g

fewer_destinations :
    (s t : FusisState)
    → ((k : String) (d : Destination)
        → State.get_destination k t ≡ ok d
        → State.get_destination k s ≡ ok d)
    → HasDistinctAddresses s
    → HasDistinctAddresses t
fewer_destinations s t kept h = record {
  apart = λ k j a b found other. h.apart k j a b (kept k a found) (kept j b other);
}

step-HasOwnHosts :
    {platform : Platform} {n n' : Node platform}
    → HasOwnHosts n.state
    → Step n n'
    → HasOwnHosts n'.state
step-HasOwnHosts {platform} {n} {n'} h (service_added fuel verdict svc svc' e r) =
    by_case (add_service-Adding platform verdict svc n fuel r)
  where
    by_case : Services.Adding verdict svc n n' svc' e → HasOwnHosts n'.state
    by_case (Services.unchanged x state _) = rw state h
    by_case (Services.added _ _ state _ _) = record {
      keyed = rw state (add_service-IsKeyed svc' n.state h.keyed);
      hosts = add_service_hosts platform verdict svc n fuel h.hosts r;
    }
step-HasOwnHosts {platform} {n} {n'} h (service_deleted verdict name e r) =
    elim (delete_service_state platform verdict n name r) [
      | inl state ↦ rw state h
      | inr (svc, state) ↦ record {
        keyed = rw state (delete_service-IsKeyed svc n.state h.keyed);
        hosts = rw state (delete_service-HasDistinctHosts svc n.state h.hosts);
      }
    ]
step-HasOwnHosts {platform} {n} {n'} h (destination_added verdict svc dst e r) =
    by_case (add_destination-Adding platform verdict svc dst n r)
  where
    by_case : Destinations.Adding verdict svc dst n n' e → HasOwnHosts n'.state
    by_case (Destinations.unchanged x state _) = rw state h
    by_case (Destinations.added _ _ _ _ _ state) = record {
      keyed = rw state (add_destination-IsKeyed dst n.state h.keyed);
      hosts = rw state (add_destination-HasDistinctHosts dst n.state h.hosts);
    }
step-HasOwnHosts {platform} {n} {n'} h (destination_deleted verdict dst e r) =
    elim (delete_destination_state platform verdict n dst r) [
      | inl state ↦ rw state h
      | inr state ↦ record {
        keyed = rw state (delete_destination-IsKeyed dst n.state h.keyed);
        hosts = rw state (delete_destination-HasDistinctHosts dst n.state h.hosts);
      }
    ]
step-HasOwnHosts h (replicated m m' before s after) = rw after (step-HasOwnHosts (rw before h) s)
step-HasOwnHosts h (elsewhere state) = rw state h

-- Whatever calls a balancer gets, also those that add a destination to a service that it does not
-- name: each name is still taken once, and no two services share an address.
pub reach-HasOwnHosts :
    {platform : Platform} {n n' : Node platform}
    → HasOwnHosts n.state
    → Reach n n'
    → HasOwnHosts n'.state
reach-HasOwnHosts h start = h
reach-HasOwnHosts h (step r s) = step-HasOwnHosts (reach-HasOwnHosts h r) s

step-HasDistinctAddresses :
    {platform : Platform} {n n' : Node platform}
    → IsKeyed n.state
    → HasDistinctAddresses n.state
    → (s : Step n n') → StepOwned s
    → HasDistinctAddresses n'.state
step-HasDistinctAddresses {platform} {n} {n'} keyed h (service_added fuel verdict svc svc' e r) _ =
    by_case (add_service-Adding platform verdict svc n fuel r)
  where
    by_case : Services.Adding verdict svc n n' svc' e → HasDistinctAddresses n'.state
    by_case (Services.unchanged x state _) = rw state h
    by_case (Services.added _ _ state _ _) = rw state (
        fewer_destinations n.state _
          (λ k d found. sym (get_destination-add_service svc' k n.state) ∙ found) h)
step-HasDistinctAddresses {platform} {n} {n'} keyed h (service_deleted verdict name e r) _ =
    elim (delete_service_state platform verdict n name r) [
      | inl state ↦ rw state h
      | inr (svc, state) ↦ rw state (
          fewer_destinations n.state _
            (λ k d found. sym (get_destination-delete_service svc k n.state) ∙ found) h)
    ]
step-HasDistinctAddresses {platform} {n} {n'} keyed h (destination_added verdict svc dst e r)
      owned =
    add_destination-HasDistinctAddresses platform verdict svc dst n keyed owned h r
step-HasDistinctAddresses {platform} {n} {n'} keyed h (destination_deleted verdict dst e r) _ =
    elim (delete_destination_state platform verdict n dst r) [
      | inl state ↦ rw state h
      | inr state ↦ rw state (
          fewer_destinations n.state _
            (λ k d found. ground (arith, get_destination-delete_destination dst k n.state, found))
            h)
    ]
step-HasDistinctAddresses keyed h (replicated m m' before s after) owned =
    rw after (step-HasDistinctAddresses (rw before keyed) (rw before h) s owned)
step-HasDistinctAddresses keyed h (elsewhere state) _ = rw state h

reach-HasDistinctAddresses :
    {platform : Platform} {n n' : Node platform}
    → HasOwnHosts n.state
    → HasDistinctAddresses n.state
    → (r : Reach n n') → AllOwned r
    → HasDistinctAddresses n'.state
reach-HasDistinctAddresses own h start _ = h
reach-HasDistinctAddresses own h (step r s) (before, now) =
    step-HasDistinctAddresses (reach-HasOwnHosts own r).keyed
      (reach-HasDistinctAddresses own h r before) s now

-- Whatever calls of `AddService`, `DeleteService`, `AddDestination` and `DeleteDestination` a balancer
-- gets, itself or from another that holds the same state, in whatever order, with whatever verdicts of raft and failures, and whatever happens to its
-- machine in between: where its state was sound, it stays sound. Each name is taken once, no two
-- services share an address, and no two destinations of a service share host and port, provided each
-- destination names the service that it is added to.
pub reach-IsSound :
    {platform : Platform} {n n' : Node platform}
    → IsSound n.state
    → (r : Reach n n') → AllOwned r
    → IsSound n'.state
reach-IsSound {n = n} h r owned =
    let own : HasOwnHosts n.state = record { keyed = h.keyed; hosts = h.hosts } in
    let after = reach-HasOwnHosts own r in
    record {
      keyed = after.keyed;
      hosts = after.hosts;
      addresses = reach-HasDistinctAddresses own h.addresses r owned;
    }

-- A new balancer is sound.
pub new_fusis_state-IsSound : IsSound new_fusis_state
unfolding State.get_service State.get_destination lookup
new_fusis_state-IsSound = record {
  keyed = new_fusis_state-IsKeyed;
  hosts = record { apart = λ k j a b ha hb ne named. absurd (ground (arith, ha)) };
  addresses = record { apart = λ k j a b ha hb ne owned host. absurd (ground (arith, ha)) };
}

pub new_fusis_state-HasOwnHosts : HasOwnHosts new_fusis_state
new_fusis_state-HasOwnHosts = record {
  keyed = new_fusis_state-IsKeyed;
  hosts = new_fusis_state-IsSound.hosts;
}
