-- ===== src/Api.antt =====
-- api/api.go and api/handlers.go: the HTTP API of a balancer, over the interface `Balancer`.
pub mod Routes
pub mod Client
pub mod Trip
pub mod Locations
pub mod Answers
pub mod Fake
use fusis.Prelude.{
  ℕ, String, Bool, true, false, Option, none, some, List, [], ◌∷◌, ℤ, pos, if◌then◌else◌,
}
use fusis.Prelude.Text.{concat}
use fusis.Types.{
  Error, error_text, is_not_found, service_not_found, service_already_exists,
  destination_already_exists, destination_not_found, crash_error, other, Result, ok, err,
}
use fusis.Types.Service.{Service}
use fusis.Types.Destination.{Destination}

-- `type Balancer interface`, each method from a state to the next. `AddService` may change the
-- service that it is handed.
pub record BalancerApi : Type 1 where
  pub State : Type 0
  pub get_services : State → List Service
  pub add_service : Service → State → State × Service × Option Error
  pub get_service : String → State → Result Service
  pub delete_service : String → State → State × Option Error
  pub add_destination : Service → Destination → State → State × Option Error
  pub get_destination : String → State → Result Destination
  pub delete_destination : Destination → State → State × Option Error
  pub is_leader : State → Bool
  pub get_leader : State → String

-- The errors that `govalidator.ErrorsByField` gives, by field.
abbrev pub FieldErrors : Type 0
FieldErrors = List (String × String)

pub data Body : Type 0 where
  services : List Service → Body
  service : Service → Body
  destination : Destination → Body
  error : String → Body
  errors : FieldErrors → Body

-- The calls that a handler makes on the gin context, in their order.
pub data Write : Type 0 where
  failed : String → Write
  status : ℕ → Write
  header : String → String → Write
  json : ℕ → Body → Write
  redirect : ℕ → String → Write
  abort : Write

abbrev pub refuse : Error → ℕ → String → List Write
refuse e code text = failed (error_text e) ∷ json code (error text) ∷ []

-- `fmt.Sprintf("GetService() failed: %v", err)` and its like.
abbrev pub because : String → Error → String
because what e = concat (what ∷ "() failed: " ∷ error_text e ∷ [])

-- The same with a newline at the end, which some handlers print.
abbrev pub because_line : String → Error → String
because_line what e = concat (what ∷ "() failed: " ∷ error_text e ∷ "\n" ∷ [])

-- The answer to an error of `GetService`; `serviceDelete` answers the other errors with 400.
unfoldable pub lookup_failed : ℕ → Error → List Write
lookup_failed code service_not_found = refuse service_not_found 404 (error_text service_not_found)
lookup_failed code e = refuse e code (because "GetService" e)

-- The answer to an error of `AddService`.
unfoldable pub create_failed : Error → List Write
create_failed service_already_exists =
    refuse service_already_exists 409 (error_text service_already_exists)
create_failed e = refuse e 500 (because "UpsertService" e)

-- The answer to an error of `AddDestination`.
unfoldable pub add_failed : Error → List Write
add_failed destination_already_exists =
    refuse destination_already_exists 409 (error_text destination_already_exists)
add_failed e = refuse e 500 (because_line "UpsertDestination" e)

unfoldable pub destination_lookup_failed : Error → List Write
destination_lookup_failed e =
    if is_not_found e
    then refuse e 404 (error_text e)
    else refuse e 500 (because "GetDestination" e)

-- The destination before the request is read into it.
abbrev pub default_destination : String → Destination
default_destination service_name = record {
  name = "";
  host = "";
  port = 0;
  weight = pos 1;
  mode = "route";
  service_id = service_name;
  stats = none;
}

module _ (balancer : BalancerApi) where
  open balancer use {
    State, get_services, add_service, get_service, delete_service, add_destination, get_destination,
    delete_destination,
  }

  unfoldable pub service_list : State → List Write
  service_list s = elim (get_services s) [
    | [] ↦ status 204 ∷ []
    | svc ∷ svcs ↦ json 200 (services (svc ∷ svcs)) ∷ []
  ]

  unfoldable pub service_get : String → State → List Write
  service_get id s = elim (get_service id s) [
    | err e ↦ lookup_failed 500 e
    | ok svc ↦ json 200 (service svc) ∷ []
  ]

  abbrev pub created : State × Service × Option Error → State × List Write
  created (s, svc, some e) = (s, create_failed e)
  created (s, svc, none) =
      (s, header "Location" (concat ("/services/" ∷ svc.name ∷ [])) ∷ json 201 (service svc) ∷ [])

  -- `bound` is what `BindJSON` read from the request, and `validate` is `govalidator`.
  unfoldable pub service_create :
      (Service → Option FieldErrors) → Result Service → State → State × List Write
  service_create validate (err e) s = (s, refuse e 400 (error_text e))
  service_create validate (ok posted) s =
      let new_service = record posted { destinations = [] } in
      elim (validate new_service) [
        | some errs ↦ (s, failed "validation" ∷ json 400 (errors errs) ∷ [])
        | none ↦ created (add_service new_service s)
      ]

  abbrev pub deleted : State × Option Error → State × List Write
  deleted (s, some e) = (s, refuse e 500 (because_line "DeleteService" e))
  deleted (s, none) = (s, status 204 ∷ [])

  unfoldable pub service_delete : String → State → State × List Write
  service_delete id s = elim (get_service id s) [
    | err e ↦ (s, lookup_failed 400 e)
    | ok svc ↦ deleted (delete_service id s)
  ]

  abbrev pub added : String → Destination → State × Option Error → State × List Write
  added service_name dst (s, some e) = (s, add_failed e)
  added service_name dst (s, none) = (
    s,
    header "Location" (concat ("/services/" ∷ service_name ∷ "/destinations/" ∷ dst.name ∷ []))
        ∷ json 201 (destination dst)
        ∷ [],
  )

  -- `bind` reads the request over the default destination: a field that the request names is
  -- replaced, `ServiceId` too.
  unfoldable pub destination_create :
      (Destination → Option FieldErrors)
      → (Destination → Result Destination)
      → String
      → State
      → State × List Write
  destination_create validate bind service_name s = elim (get_service service_name s) [
    | err e ↦ (s, lookup_failed 500 e)
    | ok svc ↦ elim (bind (default_destination service_name)) [
      | err e ↦ (s, refuse e 400 (error_text e))
      | ok dst ↦ elim (validate dst) [
        | some errs ↦ (s, failed "validation" ∷ json 400 (errors errs) ∷ [])
        | none ↦ added service_name dst (add_destination svc dst s)
      ]
    ]
  ]

  -- After a failure the handler goes on to its last call, which sets the status.
  abbrev pub destination_deleted : State × Option Error → State × List Write
  destination_deleted (s, some e) = (
    s,
    failed (error_text e) ∷ json 500 (error (because_line "DeleteDestination" e)) ∷ status 204 ∷ [],
  )
  destination_deleted (s, none) = (s, status 204 ∷ [])

  unfoldable pub destination_delete : String → State → State × List Write
  destination_delete id s = elim (get_destination id s) [
    | err e ↦ (s, destination_lookup_failed e)
    | ok dst ↦ destination_deleted (delete_destination dst s)
  ]
