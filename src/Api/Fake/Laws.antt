-- ===== src/Api/Fake/Laws.antt =====
-- The test server keeps what it is given: the lookups after each change.
use fusis.Prelude.{
  ℕ, zero, suc, ◌+◌, ◌<◌, String, Bool, true, false, Option, none, some, List, [], ◌∷◌, ◌++◌, ◌==◌,
  ◌≡◌, refl, sym, ap, ◌∙◌, ◌⊎◌, if◌then◌else◌, arith, eq_iff, eq_false, eq_refl, inl, inr,
  Bool-cases, String-cases, All, length,
}
use fusis.Types.{service_not_found, destination_not_found, Result, ok, err}
use fusis.Types.Service.{Service}
use fusis.Types.Destination.{Destination}
use fusis.Api.Fake.{
  TestBalancer, find_service, has_service, remove_service, find_in, or_later, find_destination,
  has_destination, found_service, append_at, attach, get_service, delete_service, get_destination,
  add_destination,
}

-- No name stands twice.
abbrev pub HasOnce : List Service → Type 0
HasOnce [] = Unit
HasOnce (svc ∷ svcs) = (has_service svc.name svcs ≡ false) × HasOnce svcs

find_service-missing :
    (k : String) (svcs : List Service)
    → has_service k svcs ≡ false
    → find_service k svcs ≡ err service_not_found
unfolding find_service has_service
find_service-missing k [] h = refl
find_service-missing k (svc ∷ svcs) h = ground (arith, h, find_service-missing k svcs)

find_service-remove_service :
    (id k : String) (svcs : List Service)
    → HasOnce svcs
    → find_service k (remove_service id svcs)
      ≡ (if id == k then err service_not_found else find_service k svcs)
unfolding find_service remove_service has_service
find_service-remove_service id k [] h = ground arith
find_service-remove_service id k (svc ∷ svcs) h = ground (
  arith,
  h.0,
  find_service-remove_service id k svcs h.1,
  find_service-missing k svcs,
  eq_iff svc.name id,
  eq_iff svc.name k,
  eq_iff id k,
)

-- If the test server's DeleteService returns no error, and no two services had one name, its
-- GetService finds nothing under the name, and under every other name what it found before.
pub delete_service_gone :
    (id : String) (b b' : TestBalancer)
    → HasOnce b.services
    → delete_service id b ≡ (b', none)
    → (k : String) → get_service k b' ≡ (if id == k then err service_not_found else get_service k b)
unfolding delete_service get_service
delete_service_gone id b b' once h k = elim (Bool-cases (has_service id b.services)) [
  | inl e ↦
      rw (← ap (λ r. r.0.services) (rw (e, delete_service) at h))
        (find_service-remove_service id k b.services once)
  | inr e ↦ absurd (ground (arith, h, e))
]

-- No service of the list has the destination.
abbrev IsFree : String → List Service → Type 0
IsFree id svcs = All (λ svc. has_destination id svc.destinations ≡ false) svcs

abbrev Index : List Service → ℕ → Option ℕ → Option ℕ → Type 0
Index svcs i found r = (r ≡ found) ⊎ ((j : ℕ) × (j < length svcs) × (r ≡ some (i + j)))

later-Index :
    (named : Bool) (cur : Service) (svcs : List Service) (i : ℕ) (found r : Option ℕ)
    → Index svcs (suc i) (if named then some i else found) r
    → Index (cur ∷ svcs) i found r
later-Index true cur svcs i found r (inl e) = inr (0, omega arith, e ∙ ap some (omega arith))
later-Index false cur svcs i found r (inl e) = inl e
later-Index named cur svcs i found r (inr (j, le, e)) =
    inr (suc j, omega (arith, le), e ∙ ap some (omega arith))

found_service-IsFree :
    (srv dest : String) (found r : Option ℕ) (i : ℕ) (svcs : List Service)
    → found_service srv dest found i svcs ≡ ok r
    → IsFree dest svcs × Index svcs i found r
unfolding found_service
found_service-IsFree srv dest found r i [] h = (tt, inl (ground (arith, h)))
found_service-IsFree srv dest found r i (cur ∷ svcs) h =
    elim (Bool-cases (has_destination dest cur.destinations)) [
      | inl e ↦ absurd (ground (arith, h, e))
      | inr e ↦
          let (free, index) =
            found_service-IsFree srv dest (if cur.name == srv then some i else found) r (suc i) svcs
              (rw (e, found_service) at h) in
          ((e, free), later-Index (cur.name == srv) cur svcs i found r index)
    ]

find_in-append :
    (k : String) (dst : Destination) (ds : List Destination)
    → find_in k (ds ++ (dst ∷ []))
      ≡ or_later (find_in k ds) (if dst.name == k then ok dst else err destination_not_found)
unfolding find_in or_later
find_in-append k dst [] = refl
find_in-append k dst (d ∷ ds) = ground (arith, find_in-append k dst ds)

find_in-missing :
    (k : String) (ds : List Destination)
    → has_destination k ds ≡ false
    → find_in k ds ≡ err destination_not_found
unfolding find_in has_destination
find_in-missing k [] h = refl
find_in-missing k (d ∷ ds) h = ground (arith, h, find_in-missing k ds)

or_later_step :
    (x y : Result Destination) → or_later (or_later x (err destination_not_found)) y ≡ or_later x y
unfolding or_later
or_later_step (ok d) y = refl
or_later_step (err e) y = refl

find_destination-append_at :
    (k : String) (dst : Destination) (j : ℕ) (svcs : List Service)
    → IsFree dst.name svcs
    → j < length svcs
    → find_destination k (append_at j dst svcs)
      ≡ (if dst.name == k then ok dst else find_destination k svcs)
unfolding find_destination append_at or_later
find_destination-append_at k dst j [] h le = absurd (ground (arith, le))
find_destination-append_at k dst zero (svc ∷ svcs) h le =
    rw (find_in-append k dst svc.destinations) (elim (String-cases dst.name k) [
      | inl e ↦
          rw (← e) (rw (find_in-missing dst.name svc.destinations h.0) (rw (eq_refl dst.name) refl))
      | inr e ↦
          rw (eq_false dst.name k e)
            (or_later_step (find_in k svc.destinations) (find_destination k svcs))
    ])
find_destination-append_at k dst (suc j) (svc ∷ svcs) h le =
    rw (find_destination-append_at k dst j svcs h.1 (omega arith)) (elim (String-cases dst.name k) [
      | inl e ↦
          rw (← e) (rw (find_in-missing dst.name svc.destinations h.0) (rw (eq_refl dst.name) refl))
      | inr e ↦ rw (eq_false dst.name k e) refl
    ])

attach_kept :
    (r : Result (Option ℕ)) (dst : Destination) (b b' : TestBalancer)
    → attach r dst b ≡ (b', none)
    → (i : ℕ) × (r ≡ ok (some i)) × (b'.services ≡ append_at i dst b.services)
unfolding attach
attach_kept (err e) dst b b' h = absurd (ground (arith, h))
attach_kept (ok none) dst b b' h = absurd (ground (arith, h))
attach_kept (ok (some i)) dst b b' h = (i, refl, sym (ap (λ r. r.0.services) h))

-- If the test server's AddDestination returns no error, its GetDestination finds the destination under
-- its name, and under every other name what it found before.
pub add_destination_found :
    (srv : Service) (dst : Destination) (b b' : TestBalancer)
    → add_destination srv dst b ≡ (b', none)
    → (k : String) → get_destination k b' ≡ (if dst.name == k then ok dst else get_destination k b)
unfolding add_destination get_destination
add_destination_found srv dst b b' h k =
    let (i, e, kept) = attach_kept (found_service srv.name dst.name none 0 b.services) dst b b' h in
    let (free, index) = found_service-IsFree srv.name dst.name none (some i) 0 b.services e in
    rw kept (elim index [
      | inl q ↦ absurd (ground (arith, q))
      | inr (j, le, q) ↦ find_destination-append_at k dst i b.services free (ground (arith, le, q))
    ])
