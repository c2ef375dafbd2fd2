-- ===== src/Api/Fake.antt =====
-- api/testing/server.go: the balancer that the client's tests run against, a list of services that
-- hold their destinations.
pub mod Laws
use fusis.Prelude.{
  ℕ, zero, suc, String, Bool, true, false, Option, none, some, List, [], ◌∷◌, ◌++◌, ◌==◌, ◌≡◌, ◌≢◌,
  refl, if◌then◌else◌, arith, eq_iff, eq_false, inl, inr, Bool-cases, All,
}
use fusis.Types.{
  Error, service_not_found, service_already_exists, destination_already_exists,
  destination_not_found, Result, ok, err,
}
use fusis.Types.Service.{Service}
use fusis.Types.Destination.{Destination}
use fusis.Api.{BalancerApi}

pub record TestBalancer : Type 0 where
  pub services : List Service

abbrev pub new_test_balancer : TestBalancer
new_test_balancer = record { services = [] }

-- The loop that looks for a service by its name.
unfoldable pub find_service : String → List Service → Result Service
find_service id [] = err service_not_found
find_service id (svc ∷ svcs) =
    let rest = find_service id svcs in if svc.name == id then ok svc else rest

unfoldable pub has_service : String → List Service → Bool
has_service id [] = false
has_service id (svc ∷ svcs) =
    let rest = has_service id svcs in if svc.name == id then true else rest

-- `append(b.services[:i], b.services[i+1:]...)` at the first service with the name.
unfoldable pub remove_service : String → List Service → List Service
remove_service id [] = []
remove_service id (svc ∷ svcs) =
    let rest = remove_service id svcs in if svc.name == id then svcs else svc ∷ rest

unfoldable pub find_in : String → List Destination → Result Destination
find_in id [] = err destination_not_found
find_in id (d ∷ ds) = let rest = find_in id ds in if d.name == id then ok d else rest

unfoldable pub or_later : Result Destination → Result Destination → Result Destination
or_later (ok d) later = ok d
or_later (err e) later = later

unfoldable pub find_destination : String → List Service → Result Destination
find_destination id [] = err destination_not_found
find_destination id (svc ∷ svcs) = or_later (find_in id svc.destinations) (find_destination id svcs)

unfoldable pub has_destination : String → List Destination → Bool
has_destination id [] = false
has_destination id (d ∷ ds) =
    let rest = has_destination id ds in if d.name == id then true else rest

-- The loop of `AddDestination` from the service at `i` on: the last service with the name, or an error
-- if any service has the destination.
unfoldable pub found_service : String → String → Option ℕ → ℕ → List Service → Result (Option ℕ)
found_service srv dest found i [] = ok found
found_service srv dest found i (cur ∷ svcs) =
    let more = found_service srv dest (if cur.name == srv then some i else found) (suc i) svcs in
    if has_destination dest cur.destinations then err destination_already_exists else more

unfoldable pub append_at : ℕ → Destination → List Service → List Service
append_at i dst [] = []
append_at zero dst (svc ∷ svcs) =
    record svc { destinations = svc.destinations ++ (dst ∷ []) } ∷ svcs
append_at (suc i) dst (svc ∷ svcs) = svc ∷ append_at i dst svcs

unfoldable pub remove_in : String → List Destination → List Destination
remove_in id [] = []
remove_in id (d ∷ ds) = let rest = remove_in id ds in if d.name == id then ds else d ∷ rest

-- The first destination with the name goes, of the first service that has one.
unfoldable pub remove_destination : String → List Service → Option (List Service)
remove_destination id [] = none
remove_destination id (svc ∷ svcs) =
    let rest = remove_destination id svcs in
    if has_destination id svc.destinations
    then some (record svc { destinations = remove_in id svc.destinations } ∷ svcs)
    else elim rest [ none ↦ none | some kept ↦ some (svc ∷ kept) ]

unfoldable pub get_leader : TestBalancer → String
get_leader b = "localhost:8000"

unfoldable pub is_leader : TestBalancer → Bool
is_leader b = true

unfoldable pub get_services : TestBalancer → List Service
get_services b = b.services

unfoldable pub add_service : Service → TestBalancer → TestBalancer × Service × Option Error
add_service srv b =
    if has_service srv.name b.services
    then (b, srv, some service_already_exists)
    else (record b { services = b.services ++ (srv ∷ []) }, srv, none)

unfoldable pub get_service : String → TestBalancer → Result Service
get_service id b = find_service id b.services

unfoldable pub delete_service : String → TestBalancer → TestBalancer × Option Error
delete_service id b =
    if has_service id b.services
    then (record b { services = remove_service id b.services }, none)
    else (b, some service_not_found)

unfoldable pub attach : Result (Option ℕ) → Destination → TestBalancer → TestBalancer × Option Error
attach (err e) dst b = (b, some e)
attach (ok none) dst b = (b, some service_not_found)
attach (ok (some i)) dst b = (record b { services = append_at i dst b.services }, none)

unfoldable pub add_destination : Service → Destination → TestBalancer → TestBalancer × Option Error
add_destination srv dst b = attach (found_service srv.name dst.name none 0 b.services) dst b

unfoldable pub get_destination : String → TestBalancer → Result Destination
get_destination id b = find_destination id b.services

unfoldable pub detach : Option (List Service) → TestBalancer → TestBalancer × Option Error
detach none b = (b, some destination_not_found)
detach (some svcs) b = (record b { services = svcs }, none)

unfoldable pub delete_destination : Destination → TestBalancer → TestBalancer × Option Error
delete_destination dst b = detach (remove_destination dst.name b.services) b

-- The fake as a balancer of the API.
abbrev pub fake : BalancerApi
fake = record {
  State = TestBalancer;
  get_services = get_services;
  add_service = add_service;
  get_service = get_service;
  delete_service = delete_service;
  add_destination = add_destination;
  get_destination = get_destination;
  delete_destination = delete_destination;
  is_leader = is_leader;
  get_leader = get_leader;
}
