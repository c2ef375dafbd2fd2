-- ===== src/Engine/Snapshots.antt =====
-- `Snapshot` and `Restore`: what a balancer that restores a snapshot has of the state that was
-- saved.
use mathlib.Core.Path.{subst}
use fusis.Prelude.{
  String, ◌≡◌, refl, sym, ap, ◌∙◌, eq_iff, eq_false, List, [], ◌∷◌, Memᴰ, arith, if◌then◌else◌, map,
  Option, none, some, inl, inr, Bool-cases, Bool, true, false, select, ◌↔◌, mem-select, select-mem,
}
use fusis.GoMap.{GoMap, lookup, values, has_key}
use fusis.GoMap.Laws.{KeyedBy, HasUniqueKeys, lookup-insert, mem-lookup, lookup-mem}
use fusis.Types.{ok}
use fusis.Types.Service
use fusis.Types.Service.{Service}
use fusis.Types.Destination
use fusis.Types.Destination.{Destination}
use fusis.Ipvs.State.{
  FusisState, new_fusis_state, with_destinations, belongs_to, get_services, get_service,
  add_service, get_destination, add_destination,
}
use fusis.Ipvs.State.Laws.{
  get_service-stored, get_destination-stored, get_service-found, stored_service, stored_destination,
}
use fusis.Ipvs.State.Invariant.{
  IsKeyed, found-has_key, new_fusis_state-IsKeyed, add_service-IsKeyed, add_destination-IsKeyed,
}
use fusis.Engine.{restore_destinations, restore_services, snapshot}

services-restore_destinations :
    (ds : List Destination) (s : FusisState) → (restore_destinations ds s).services ≡ s.services
unfolding restore_destinations add_destination
services-restore_destinations [] s = refl
services-restore_destinations (d ∷ ds) s = services-restore_destinations ds (add_destination d s)

abbrev or_else {ℓ} : {A : Type ℓ} → Option A → Option A → Option A
or_else none o = o
or_else (some a) o = some a

abbrev keep_if : (Destination → Bool) → Option Destination → Option Destination
keep_if p none = none
keep_if p (some d) = if p d then some d else none

absent : (k : String) (m : GoMap Destination) → has_key k m ≡ false → lookup k m ≡ none
unfolding has_key lookup
absent k [] h = refl
absent k ((j, w) ∷ m) h = ground (arith, absent k m)

-- The inner loop over the destinations that a snapshot holds for one service.
lookup-restore_destinations :
    (p : Destination → Bool) (k : String) (m : GoMap Destination) (s : FusisState)
    → KeyedBy Destination.get_id m
    → HasUniqueKeys m
    → lookup k (restore_destinations (select p (values m)) s).destinations
      ≡ or_else (keep_if p (lookup k m)) (lookup k s.destinations)
unfolding restore_destinations values lookup add_destination
lookup-restore_destinations p k [] s kb u = refl
lookup-restore_destinations p k ((j, d) ∷ m) s kb u = elim (Bool-cases (p d)) [
  | inl e ↦ rw e (
      lookup-restore_destinations p k m (add_destination d s) kb.1 u.1
      ∙ ap (or_else (keep_if p (lookup k m))) (lookup-insert d.name k d s.destinations)
      ∙ ground (arith, kb.0, e, absent k m, u.0, eq_iff j k))
  | inr e ↦ rw e (
      lookup-restore_destinations p k m s kb.1 u.1 ∙ ground (arith, e, absent k m, u.0, eq_iff j k))
]

-- What `k` finds after the destinations of the services in `m` are restored from `saved`.
abbrev pub of_services : GoMap Service → Option Destination → Option Destination
of_services m none = none
of_services m (some d) = if has_key d.service_id m then some d else none

combine :
    (j : String) (w : Service) (m : GoMap Service) (o rest : Option Destination)
    → j ≡ w.name
    → or_else (of_services m o) (or_else (keep_if (belongs_to w.name) o) rest)
      ≡ or_else (of_services ((j, w) ∷ m) o) rest
unfolding has_key
combine j w m none rest e = refl
combine j w m (some d) rest e = ground (arith, e, eq_iff d.service_id w.name, eq_iff j d.service_id)

lookup-restore_services :
    (k : String) (saved s : FusisState) (m : GoMap Service)
    → KeyedBy Service.get_id m
    → IsKeyed saved
    → lookup k (restore_services (map (with_destinations saved) (values m)) s).destinations
      ≡ or_else (of_services m (lookup k saved.destinations)) (lookup k s.destinations)
unfolding restore_services values has_key with_destinations add_service
lookup-restore_services k saved s [] kb keyed = by_entry (lookup k saved.destinations)
  where
    by_entry :
        (o : Option Destination)
        → lookup k s.destinations ≡ or_else (of_services [] o) (lookup k s.destinations)
    by_entry none = refl
    by_entry (some d) = refl
lookup-restore_services k saved s ((j, w) ∷ m) kb keyed =
    lookup-restore_services k saved
      (restore_destinations (with_destinations saved w).destinations
        (add_service (with_destinations saved w) s))
      m kb.1 keyed
    ∙ ap (or_else (of_services m (lookup k saved.destinations))) (
        lookup-restore_destinations (belongs_to w.name) k saved.destinations
          (add_service (with_destinations saved w) s) keyed.destinations_by_name
          keyed.destinations_once)
    ∙ combine j w m (lookup k saved.destinations) _ kb.0

-- The services that `k` finds after the services in `m` are restored.
abbrev rebuilt : FusisState → Option Service → Option Service
rebuilt saved none = none
rebuilt saved (some svc) = some (with_destinations saved svc)

absent_service : (k : String) (m : GoMap Service) → has_key k m ≡ false → lookup k m ≡ none
unfolding has_key lookup
absent_service k [] h = refl
absent_service k ((j, w) ∷ m) h = ground (arith, absent_service k m)

services-restore_services :
    (k : String) (saved s : FusisState) (m : GoMap Service)
    → KeyedBy Service.get_id m
    → HasUniqueKeys m
    → lookup k (restore_services (map (with_destinations saved) (values m)) s).services
      ≡ or_else (rebuilt saved (lookup k m)) (lookup k s.services)
unfolding restore_services values lookup with_destinations add_service
services-restore_services k saved s [] kb u = refl
services-restore_services k saved s ((j, w) ∷ m) kb u =
    services-restore_services k saved
      (restore_destinations (with_destinations saved w).destinations
        (add_service (with_destinations saved w) s))
      m kb.1 u.1
    ∙ ap (λ (t : GoMap Service). or_else (rebuilt saved (lookup k m)) (lookup k t))
        (services-restore_destinations (with_destinations saved w).destinations
          (add_service (with_destinations saved w) s))
    ∙ ap (or_else (rebuilt saved (lookup k m)))
        (lookup-insert w.name k (with_destinations saved w) s.services)
    ∙ ground (arith, kb.0, absent_service k m, u.0, eq_iff j k)

restore_destinations-IsKeyed :
    (ds : List Destination) (s : FusisState) → IsKeyed s → IsKeyed (restore_destinations ds s)
unfolding restore_destinations
restore_destinations-IsKeyed [] s h = h
restore_destinations-IsKeyed (d ∷ ds) s h =
    restore_destinations-IsKeyed ds (add_destination d s) (add_destination-IsKeyed d s h)

pub restore_services-IsKeyed :
    (svcs : List Service) (s : FusisState) → IsKeyed s → IsKeyed (restore_services svcs s)
unfolding restore_services
restore_services-IsKeyed [] s h = h
restore_services-IsKeyed (svc ∷ svcs) s h = restore_services-IsKeyed svcs _ (
    restore_destinations-IsKeyed svc.destinations (add_service svc s) (add_service-IsKeyed svc s h))

-- The state of a fresh balancer that restores the snapshot of `s`.
abbrev pub restored : FusisState → FusisState
restored s = restore_services (snapshot s) new_fusis_state

-- A fresh balancer that restores the snapshot of a keyed state finds a destination exactly if the
-- saved state found it and holds a service by the name that the destination gives: destinations
-- of deleted services are lost.
pub get_destination-restored :
    (k : String) (s : FusisState)
    → IsKeyed s
    → get_destination k (restored s)
      ≡ stored_destination (of_services s.services (lookup k s.destinations))
unfolding snapshot get_services lookup
get_destination-restored k s keyed =
    get_destination-stored k (restored s)
    ∙ ap stored_destination (
        lookup-restore_services k s new_fusis_state s.services keyed.services_by_name keyed
        ∙ or_none _)
  where
    or_none : (o : Option Destination) → or_else o none ≡ o
    or_none none = refl
    or_none (some d) = refl

of_services-eq_some :
    (m : GoMap Service) (o : Option Destination) (d : Destination)
    → or_else (of_services m o) none ≡ some d
    → o ≡ some d
of_services-eq_some m none d h = cc
of_services-eq_some m (some e) d h = ground arith

module _ (s : FusisState) (keyed : IsKeyed s) (id : String) where
  restored-IsKeyed : IsKeyed (restored s)
  restored-IsKeyed = restore_services-IsKeyed (snapshot s) new_fusis_state new_fusis_state-IsKeyed

  lookup-restored :
      (k : String)
      → lookup k (restored s).destinations
        ≡ or_else (of_services s.services (lookup k s.destinations)) none
  unfolding snapshot get_services lookup
  lookup-restored k =
      lookup-restore_services k s new_fusis_state s.services keyed.services_by_name keyed

  kept-of-restored :
      (d : Destination)
      → Memᴰ d (select (belongs_to id) (values (restored s).destinations))
      → Memᴰ d (select (belongs_to id) (values s.destinations))
  kept-of-restored d m =
      let (listed, mine) = mem-select (belongs_to id) d (values (restored s).destinations) m in
      let r = restored-IsKeyed in
      let at_name =
        mem-lookup Destination.get_id d (restored s).destinations r.destinations_by_name
          r.destinations_once listed in
      let before =
        of_services-eq_some s.services (lookup d.name s.destinations) d
          (sym (lookup-restored d.name) ∙ at_name) in
      select-mem (belongs_to id) d (values s.destinations)
        (lookup-mem d.name d s.destinations before) mine

  restored-of-kept :
      (d : Destination)
      → has_key id s.services ≡ true
      → Memᴰ d (select (belongs_to id) (values s.destinations))
      → Memᴰ d (select (belongs_to id) (values (restored s).destinations))
  restored-of-kept d known m =
      let (listed, mine) = mem-select (belongs_to id) d (values s.destinations) m in
      let at_name =
        mem-lookup Destination.get_id d s.destinations keyed.destinations_by_name
          keyed.destinations_once listed in
      let same : d.service_id ≡ id = (eq_iff d.service_id id).0 mine in
      let known' : has_key d.service_id s.services ≡ true = rw same known in
      let after : lookup d.name (restored s).destinations ≡ some d =
        lookup-restored d.name ∙ ground (arith, at_name, known') in
      select-mem (belongs_to id) d (values (restored s).destinations)
        (lookup-mem d.name d (restored s).destinations after) mine

-- A fresh balancer that restores the snapshot of a keyed state finds every service that the saved
-- state found, unchanged but for the order of its destinations.
pub get_service-restored :
    (k : String) (s : FusisState) {svc : Service}
    → IsKeyed s
    → get_service k s ≡ ok svc
    → (dsts : List Destination) × (get_service k (restored s)
        ≡ ok (record svc { destinations = dsts }))
      × ((d : Destination) → Memᴰ d dsts ↔ Memᴰ d svc.destinations)
unfolding snapshot get_services with_destinations lookup
get_service-restored k s keyed h =
    let (raw, stored, named, e) = get_service-found k s h in
    let (same, known) = found-has_key k raw s.services keyed.services_by_name stored in
    let dsts = select (belongs_to raw.name) (values (restored s).destinations) in
    (
      dsts,
      get_service-stored k (restored s)
          ∙ ap (stored_service (restored s)) (
              services-restore_services k s new_fusis_state s.services keyed.services_by_name
                keyed.services_once
              ∙ ap (λ (o : Option Service). or_else (rebuilt s o) none) stored)
          ∙ rw (eq_false raw.name "" named)
              (ap (λ (t : Service). ok (record t { destinations = dsts })) e),
      λ d.
          subst (λ (t : Service). Memᴰ d dsts ↔ Memᴰ d t.destinations) e
            (kept-of-restored s keyed raw.name d, restored-of-kept s keyed raw.name d known),
    )

-- `Restore` does not discard what the balancer held before: a service that the snapshot does not
-- name is still found, unchanged but for its destinations.
pub stale_service :
    (k : String) (saved s : FusisState) {svc : Service}
    → IsKeyed saved
    → lookup k saved.services ≡ none
    → get_service k s ≡ ok svc
    → (dsts : List Destination) × (get_service k (restore_services (snapshot saved) s)
        ≡ ok (record svc { destinations = dsts }))
unfolding snapshot get_services with_destinations lookup
stale_service k saved s keyed absent h =
    let (raw, stored, named, e) = get_service-found k s h in
    let after = restore_services (snapshot saved) s in
    let dsts = select (belongs_to raw.name) (values after.destinations) in
    (
      dsts,
      get_service-stored k after
          ∙ ap (stored_service after) (
              services-restore_services k saved s saved.services keyed.services_by_name
                keyed.services_once
              ∙ ap (λ (o : Option Service). or_else (rebuilt saved o) (lookup k s.services)) absent
              ∙ stored)
          ∙ rw (eq_false raw.name "" named)
              (ap (λ (t : Service). ok (record t { destinations = dsts })) e),
    )
