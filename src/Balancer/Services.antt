-- ===== src/Balancer/Services.antt =====
-- What `AddService` and `DeleteService` do, on every branch.
use fusis.Prelude.{
  ℕ, String, ◌≡◌, ◌≢◌, refl, ap, ◌∙◌, eq_iff, inl, inr, Option, none, some, false, arith, List, [],
  ◌∷◌, Memᴰ,
}
use fusis.Types.{
  Error, service_not_found, destination_not_found, service_already_exists,
  destination_already_exists, crash_error, other, Result, ok, err, returned, panicked,
}
use fusis.Types.Service.{Service}
use fusis.Ipvs.State
use fusis.Ipvs.State.{FusisState, with_destinations}
use fusis.Ipvs.State.Laws.{get_service-add_service}
use fusis.Ipvs.State.Hosts.{HasDistinctHosts, add_service-HasDistinctHosts}
use fusis.Ipvs.State.Invariant.{found-listed}
use fusis.Provider.Ipam.{has_host, allocate}
use fusis.Provider.None.{NoneProvider, set_host, allocate_vip, release_vip}
use fusis.Engine.{apply_command, add_service_op}
use fusis.Balancer.{Platform, Node, Reply, released, with_vip, add_if_new, add_service}
use fusis.Balancer.Raft.{Raft, refused, applied, apply_to_raft-Raft, Allocated, allocate-has_host}

-- What a call of `AddService` that returned may have done.
pub data Adding {platform : Platform} (verdict : Option Error) (svc : Service)
    (n n' : Node platform) (svc' : Service) (e : Option Error) : Type 0 where
  unchanged : (x : Error) → n'.state ≡ n.state → e ≡ some x → Adding verdict svc n n' svc' e
  added :
      verdict ≡ none
      → State.get_service svc.name n.state ≡ err service_not_found
      → n'.state ≡ State.add_service svc' n.state
      → svc' ≡ record svc { host = svc'.host }
      → Allocated platform.ranges (State.get_services n.state) n.provider.ipam svc'.host
      → Adding verdict svc n n' svc' e

added_state :
    (svc : Service) (s u : FusisState)
    → apply_command (record { op = add_service_op; service = some svc; destination = none }) s
      ≡ returned u
    → u ≡ State.add_service svc s
unfolding apply_command
added_state svc s u h = ground arith

not-has_host :
    (host : String) (b : Service) (l : List Service)
    → has_host host l ≡ false
    → Memᴰ b l
    → host ≢ b.host
unfolding has_host
not-has_host host b [] h m = elim m [ ]
not-has_host host b (a ∷ l) h (Memᴰ.head q) = rw q (ground (arith, eq_iff a.host host, h))
not-has_host host b (a ∷ l) h (Memᴰ.tail t) = not-has_host host b l (ground (arith, h)) t

module _ (platform : Platform) (verdict : Option Error) (svc : Service) (n : Node platform) where
  released_reply :
      (s' : Service) (r : Reply platform) {n' : Node platform} {svc' : Service} {e : Option Error}
      → released platform s' r ≡ returned (n', svc', e)
      → (m : Node platform) × (r ≡ returned (m, e)) × (n'.state ≡ m.state) × (svc' ≡ s')
  unfolding released release_vip
  released_reply s' panicked h = cc
  released_reply s' (returned (m, none)) h = (m, ground arith, ground arith, ground arith)
  released_reply s' (returned (m, some x)) h = (m, ground arith, ground arith, ground arith)

  allocated :
      (fuel : ℕ) {p : NoneProvider platform.ranges} {svc' : Service}
      → allocate_vip platform.ranges fuel svc n.state n.provider ≡ some (p, ok svc')
      → (svc' ≡ record svc { host = svc'.host })
        × Allocated platform.ranges (State.get_services n.state) n.provider.ipam svc'.host
  unfolding allocate_vip
  allocated fuel {p} {svc'} h =
      by_result (allocate platform.ranges fuel n.state n.provider.ipam) refl h
    where
      by_result :
          (o : Option (platform.ranges.Cursor × Result String))
          → allocate platform.ranges fuel n.state n.provider.ipam ≡ o
          → set_host platform.ranges svc n.provider o ≡ some (p, ok svc')
          → (svc' ≡ record svc { host = svc'.host })
            × Allocated platform.ranges (State.get_services n.state) n.provider.ipam svc'.host
      by_result none q g = cc
      by_result (some (c, err e)) q g = cc
      by_result (some (c, ok ip)) q g =
          let same : record svc { host = ip } ≡ svc' = cc in
          rw (← same) (refl, allocate-has_host platform.ranges fuel n.state n.provider.ipam c ip q)

  module _ {n' : Node platform} {svc' : Service} {e : Option Error} where
    with_vip-Adding :
        (fuel : ℕ)
        → State.get_service svc.name n.state ≡ err service_not_found
        → (o : Option (NoneProvider platform.ranges × Result Service))
        → allocate_vip platform.ranges fuel svc n.state n.provider ≡ o
        → with_vip platform verdict svc n o ≡ some (returned (n', svc', e))
        → Adding verdict svc n n' svc' e
    unfolding with_vip
    with_vip-Adding fuel missing none q h = cc
    with_vip-Adding fuel missing (some (p, err x)) q h = unchanged x (ground arith) (ground arith)
    with_vip-Adding fuel missing (some (p, ok s')) q h =
        let (m, reply, same, same') = released_reply s' _ {n' = n'} {svc' = svc'} {e = e} (cc) in
        let (shape, free) = allocated fuel q in
        by_raft m same same' shape free (apply_to_raft-Raft platform verdict _ _ reply)
      where
        by_raft :
            (m : Node platform)
            → n'.state ≡ m.state
            → svc' ≡ s'
            → s' ≡ record svc { host = s'.host }
            → Allocated platform.ranges (State.get_services n.state) n.provider.ipam s'.host
            → Raft verdict
                (record { op = add_service_op; service = some s'; destination = none })
                (record n { provider = p })
                m
                e
            → Adding verdict svc n n' svc' e
        by_raft m same same' shape free (refused x _ stays failed) =
            unchanged x (same ∙ ap (λ (k : Node platform). k.state) stays) failed
        by_raft m same same' shape free (applied committed run _) =
            added committed missing (same ∙ rw same' (added_state s' n.state m.state run))
              (rw same' shape) (rw same' free)

    -- If `AddService` returns, it failed and left the services and destinations as they were, or
    -- raft committed the service under a name that was free, with an address of the range that
    -- no service had (or "" if some service has every address that was left) and nothing else of it
    -- changed.
    pub add_service-Adding :
        (fuel : ℕ)
        → add_service platform fuel verdict svc n ≡ some (returned (n', svc', e))
        → Adding verdict svc n n' svc' e
    unfolding add_service add_if_new
    add_service-Adding fuel h = by_found (State.get_service svc.name n.state) refl h
      where
        by_found :
            (r : Result Service)
            → State.get_service svc.name n.state ≡ r
            → add_if_new platform fuel verdict svc n r ≡ some (returned (n', svc', e))
            → Adding verdict svc n n' svc' e
        by_found (ok found) q g = unchanged service_already_exists (ground arith) (ground arith)
        by_found (err service_not_found) q g = with_vip-Adding fuel q _ refl g
        by_found (err destination_not_found) q g =
            unchanged destination_not_found (ground arith) (ground arith)
        by_found (err service_already_exists) q g =
            unchanged service_already_exists (ground arith) (ground arith)
        by_found (err destination_already_exists) q g =
            unchanged destination_already_exists (ground arith) (ground arith)
        by_found (err (crash_error x)) q g = unchanged (crash_error x) (ground arith) (ground arith)
        by_found (err (other t)) q g = unchanged (other t) (ground arith) (ground arith)

  -- If `AddService` returns no error, `GetService` finds the service that the caller now holds,
  -- under its name and with the destinations that name it, and finds under every other name what it
  -- found before.
  pub add_service-get_service :
      (fuel : ℕ) {n' : Node platform} {svc' : Service}
      → svc.name ≢ ""
      → add_service platform fuel verdict svc n ≡ some (returned (n', svc', none))
      → (State.get_service svc.name n'.state ≡ ok (with_destinations n'.state svc'))
        × ((k : String) → svc.name ≢ k → State.get_service k n'.state ≡ State.get_service k n.state)
  unfolding with_destinations State.add_service
  add_service-get_service fuel {n'} {svc'} named h = by_case (add_service-Adding fuel h)
    where
      by_case :
          Adding verdict svc n n' svc' none
          → (State.get_service svc.name n'.state ≡ ok (with_destinations n'.state svc'))
            × ((k : String)
                → svc.name ≢ k
                → State.get_service k n'.state ≡ State.get_service k n.state)
      by_case (unchanged x _ failed) = cc
      by_case (added _ _ state shape _) =
          let same : svc'.name ≡ svc.name = ap (λ (r : Service). r.name) shape in
          (
            rw state (
                get_service-add_service svc' svc.name n.state
                ∙ ground (arith, same, named, eq_iff svc'.name svc.name, eq_iff svc'.name "")),
            λ k ne. rw state (
                get_service-add_service svc' k n.state
                ∙ ground (arith, same, ne, eq_iff svc'.name k)),
          )

  -- Whatever `AddService` returns, no two services share an address afterwards, if none did before
  -- (services that got no address, "", aside).
  pub add_service_hosts :
      (fuel : ℕ) {n' : Node platform} {svc' : Service} {e : Option Error}
      → HasDistinctHosts n.state
      → add_service platform fuel verdict svc n ≡ some (returned (n', svc', e))
      → HasDistinctHosts n'.state
  add_service_hosts fuel {n'} {svc'} {e} d h = by_case (add_service-Adding fuel h)
    where
      by_case : Adding verdict svc n n' svc' e → HasDistinctHosts n'.state
      by_case (unchanged x state _) = rw state d
      by_case (added _ _ state _ (inl (empty, _))) =
          rw state (add_service-HasDistinctHosts svc' n.state d (λ k b _. inl empty))
      by_case (added _ _ state _ (inr (free, _, _))) = rw state (
          add_service-HasDistinctHosts svc' n.state d
            (λ k b found. inr (not-has_host svc'.host b _ free (found-listed k b n.state found))))
