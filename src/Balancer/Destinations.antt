-- ===== src/Balancer/Destinations.antt =====
-- What `AddDestination` and `DeleteDestination` do, and that no service has two destinations with
-- one host and port.
use fusis.Prelude.{
  String, ◌≡◌, ◌≢◌, refl, sym, ap, ◌∙◌, eq_iff, ◌⊎◌, inl, inr, Option, none, some, Bool, true,
  false, arith, List, [], ◌∷◌, if◌then◌else◌, nat_beq_iff, Memᴰ, select-mem, String-cases,
}
use fusis.GoMap.{lookup, values}
use fusis.Types.{
  Error, service_not_found, destination_not_found, service_already_exists,
  destination_already_exists, crash_error, other, Result, ok, err, returned,
}
use fusis.Types.Service.{Service}
use fusis.Types.Destination.{Destination}
use fusis.Ipvs.State
use fusis.Ipvs.State.{FusisState, with_destinations, belongs_to}
use fusis.Ipvs.State.Laws.{
  get_destination-add_destination, get_destination-stored, get_service-found, stored_destination,
}
use fusis.Ipvs.State.Invariant.{IsKeyed, get_service-name}
use fusis.GoMap.Laws.{lookup-mem}
use fusis.Engine.{apply_command, add_destination_op}
use fusis.Balancer.{
  Platform, Node, apply_to_raft, has_address, add_if_unnamed, add_to_service, add_destination,
}
use fusis.Balancer.Raft.{Raft, refused, applied, apply_to_raft-Raft}

-- What a call of `AddDestination` that returned may have done.
pub data Adding {platform : Platform} (verdict : Option Error) (svc : Service) (dst : Destination)
    (n n' : Node platform) (e : Option Error) : Type 0 where
  unchanged : (x : Error) → n'.state ≡ n.state → e ≡ some x → Adding verdict svc dst n n' e
  added :
      (found : Service)
      → verdict ≡ none
      → State.get_service svc.name n.state ≡ ok found
      → State.get_destination dst.name n.state ≡ err destination_not_found
      → has_address platform dst found.destinations ≡ false
      → n'.state ≡ State.add_destination dst n.state
      → Adding verdict svc dst n n' e

added_state :
    (svc : Service) (dst : Destination) (s u : FusisState)
    → apply_command
        (record { op = add_destination_op; service = some svc; destination = some dst })
        s
      ≡ returned u
    → u ≡ State.add_destination dst s
unfolding apply_command
added_state svc dst s u h = ground arith

module _ (platform : Platform) (verdict : Option Error) (svc : Service) (dst : Destination)
    (n : Node platform) {n' : Node platform} {e : Option Error} where
  by_name :
      (found : Service) (r : Result Destination)
      → State.get_service svc.name n.state ≡ ok found
      → State.get_destination dst.name n.state ≡ r
      → add_if_unnamed platform verdict svc dst n found r ≡ returned (n', e)
      → Adding verdict svc dst n n' e
  unfolding add_if_unnamed
  by_name found (ok d) q p h = unchanged destination_already_exists (ground arith) (ground arith)
  by_name found (err destination_not_found) q p h =
      by_address (has_address platform dst found.destinations) refl h
    where
      by_raft :
          has_address platform dst found.destinations ≡ false
          → Raft verdict
              (record { op = add_destination_op; service = some svc; destination = some dst })
              n
              n'
              e
          → Adding verdict svc dst n n' e
      by_raft free (refused x _ stays failed) =
          unchanged x (ap (λ (k : Node platform). k.state) stays) failed
      by_raft free (applied committed run _) =
          added found committed q p free (added_state svc dst n.state n'.state run)

      by_address :
          (b : Bool)
          → has_address platform dst found.destinations ≡ b
          → (if b
              then returned (n, some destination_already_exists)
              else apply_to_raft platform verdict
                  (record { op = add_destination_op; service = some svc; destination = some dst })
                  n)
            ≡ returned (n', e)
          → Adding verdict svc dst n n' e
      by_address true a g = unchanged destination_already_exists (ground arith) (ground arith)
      by_address false a g = by_raft a (apply_to_raft-Raft platform verdict _ n g)
  by_name found (err service_not_found) q p h =
      unchanged service_not_found (ground arith) (ground arith)
  by_name found (err service_already_exists) q p h =
      unchanged service_already_exists (ground arith) (ground arith)
  by_name found (err destination_already_exists) q p h =
      unchanged destination_already_exists (ground arith) (ground arith)
  by_name found (err (crash_error x)) q p h =
      unchanged (crash_error x) (ground arith) (ground arith)
  by_name found (err (other t)) q p h = unchanged (other t) (ground arith) (ground arith)

  -- If `AddDestination` returns, it failed and left the services and destinations as they were, or
  -- raft committed the destination under a name that was free, for a service that exists and has no
  -- destination with its host and port.
  pub add_destination-Adding :
      add_destination platform verdict svc dst n ≡ returned (n', e) → Adding verdict svc dst n n' e
  unfolding add_destination
  add_destination-Adding h = by_service (State.get_service svc.name n.state) refl h
    where
      by_service :
          (r : Result Service)
          → State.get_service svc.name n.state ≡ r
          → add_to_service platform verdict svc dst n r ≡ returned (n', e)
          → Adding verdict svc dst n n' e
      by_service (err x) q g = unchanged x (ground arith) (ground arith)
      by_service (ok found) q g = by_name found _ q refl g

-- Two destinations of one service differ in their host or in their port.
pub record HasDistinctAddresses (s : FusisState) : Type 0 where
  pub apart :
      (k j : String) (d e : Destination)
      → State.get_destination k s ≡ ok d
      → State.get_destination j s ≡ ok e
      → k ≢ j
      → d.service_id ≡ e.service_id
      → d.host ≡ e.host
      → d.port ≢ e.port

not-has_address :
    (platform : Platform) (dst d : Destination) (ds : List Destination)
    → has_address platform dst ds ≡ false
    → Memᴰ d ds
    → d.host ≡ dst.host
    → d.port ≢ dst.port
unfolding has_address
not-has_address platform dst d [] h m same = elim m [ ]
not-has_address platform dst d (e ∷ ds) h (Memᴰ.head q) same =
    ground (arith, q, eq_iff e.host dst.host, nat_beq_iff e.port dst.port)
not-has_address platform dst d (e ∷ ds) h (Memᴰ.tail t) same =
    not-has_address platform dst d ds (ground (arith, h)) t same

found_destination-listed :
    (k : String) (d : Destination) (s : FusisState)
    → State.get_destination k s ≡ ok d
    → Memᴰ d (values s.destinations)
found_destination-listed k d s h =
    by_entry (lookup k s.destinations) refl (sym (get_destination-stored k s) ∙ h)
  where
    by_entry :
        (o : Option Destination)
        → lookup k s.destinations ≡ o
        → stored_destination o ≡ ok d
        → Memᴰ d (values s.destinations)
    by_entry none q g = cc
    by_entry (some e) q g = lookup-mem k d s.destinations (ground (arith, eq_iff e.name "", q, g))

found_destinations :
    (k : String) (s : FusisState) (found : Service) (e : Destination)
    → IsKeyed s
    → State.get_service k s ≡ ok found
    → Memᴰ e (values s.destinations)
    → e.service_id ≡ k
    → Memᴰ e found.destinations
unfolding with_destinations
found_destinations k s found e keyed h listed same =
    let (raw, _, _, q) = get_service-found k s h in
    let name : found.name ≡ k = get_service-name k s keyed h in
    let raw_name : raw.name ≡ k = ap (λ (r : Service). r.name) q ∙ name in
    rw (← ap (λ (r : Service). r.destinations) q) (
      select-mem (belongs_to raw.name) e (values s.destinations) listed
        ((eq_iff e.service_id raw.name).1 (same ∙ sym raw_name)))

found_after :
    (dst : Destination) (k : String) (a : Destination) (s : FusisState)
    → State.get_destination k (State.add_destination dst s) ≡ ok a
    → ((dst.name ≡ k) × (a ≡ dst)) ⊎ ((dst.name ≢ k) × (State.get_destination k s ≡ ok a))
found_after dst k a s h = elim (String-cases dst.name k) [
  | inl e ↦ inl (
    e,
    ground (
      arith,
      get_destination-add_destination dst k s,
      eq_iff dst.name k,
      eq_iff dst.name "",
      e,
      h,
    ),
  )
  | inr e ↦
      inr (e, ground (arith, get_destination-add_destination dst k s, eq_iff dst.name k, e, h))
]

add_new :
    (dst : Destination) (s : FusisState)
    → HasDistinctAddresses s
    → ((k : String) (b : Destination)
        → State.get_destination k s ≡ ok b
        → b.service_id ≡ dst.service_id
        → b.host ≡ dst.host
        → b.port ≢ dst.port)
    → HasDistinctAddresses (State.add_destination dst s)
add_new dst s d new = record {
  apart = λ k j a b ha hb ne owned host port.
      pair k j a b ne owned host port (found_after dst k a s ha) (found_after dst j b s hb);
}
  where
    pair :
        (k j : String) (a b : Destination)
        → k ≢ j
        → a.service_id ≡ b.service_id
        → a.host ≡ b.host
        → a.port ≡ b.port
        → ((dst.name ≡ k) × (a ≡ dst)) ⊎ ((dst.name ≢ k) × (State.get_destination k s ≡ ok a))
        → ((dst.name ≡ j) × (b ≡ dst)) ⊎ ((dst.name ≢ j) × (State.get_destination j s ≡ ok b))
        → ⊥
    pair k j a b ne owned host port (inl (p, _)) (inl (q, _)) = ne (sym p ∙ q)
    pair k j a b ne owned host port (inl (p, ea)) (inr (q, hb)) =
        ground (arith, new j b hb, owned, host, port, ea)
    pair k j a b ne owned host port (inr (p, ha)) (inl (q, eb)) =
        ground (arith, new k a ha, owned, host, port, eb)
    pair k j a b ne owned host port (inr (p, ha)) (inr (q, hb)) =
        d.apart k j a b ha hb ne owned host port

-- Whatever `AddDestination` returns in a keyed state, no two destinations of a service share host
-- and port afterwards if none did before, provided the new destination names the service that it is
-- added to.
pub add_destination-HasDistinctAddresses :
    (platform : Platform) (verdict : Option Error) (svc : Service) (dst : Destination)
    (n : Node platform) {n' : Node platform} {e : Option Error}
    → IsKeyed n.state
    → dst.service_id ≡ svc.name
    → HasDistinctAddresses n.state
    → add_destination platform verdict svc dst n ≡ returned (n', e)
    → HasDistinctAddresses n'.state
add_destination-HasDistinctAddresses platform verdict svc dst n {n'} {e} keyed owner d h =
    by_case (add_destination-Adding platform verdict svc dst n h)
  where
    new :
        (found : Service)
        → State.get_service svc.name n.state ≡ ok found
        → has_address platform dst found.destinations ≡ false
        → (k : String) (b : Destination) → State.get_destination k n.state ≡ ok b
        → b.service_id ≡ dst.service_id
        → b.host ≡ dst.host
        → b.port ≢ dst.port
    new found q free k b hb owned = not-has_address platform dst b found.destinations free (
        found_destinations svc.name n.state found b keyed q
          (found_destination-listed k b n.state hb) (owned ∙ owner))

    by_case : Adding verdict svc dst n n' e → HasDistinctAddresses n'.state
    by_case (unchanged x state _) = rw state d
    by_case (added found _ q _ free state) = rw state (add_new dst n.state d (new found q free))
