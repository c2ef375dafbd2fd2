-- ===== src/Api/Trip.antt =====
-- What a client learns from the answers of the handlers.
use fusis.Prelude.{String, Option, none, some, List, [], ◌≡◌, refl, ap}
use fusis.Prelude.Text.{concat}
use fusis.Types.{
  Error, service_not_found, service_already_exists, destination_already_exists,
  destination_not_found, crash_error, other, Result, ok, err,
}
use fusis.Types.Service.{Service}
use fusis.Types.Destination.{Destination}
use fusis.Api.{
  created, added, BalancerApi, FieldErrors, Write, service_create, destination_create,
  default_destination, create_failed, add_failed,
}
use fusis.Api.Client
use fusis.Api.Client.{Texts, respond, respond_with, id_from_location}
use fusis.Api.Locations.{NoSlash, service_location, destination_location}

-- An error that is none of the four that the program names.
abbrev pub IsOther : Error → Type 0
IsOther e = (text : String) × (e ≡ other text)

-- The client's result of a creation, next to the balancer's: the name on success, the same error if
-- it is `expected`, and an unnamed error if it is another.
abbrev pub Told : Error → String → Option Error → Result String → Type 0
Told expected name none r = r ≡ ok name
Told service_already_exists name (some service_already_exists) r = r ≡ err service_already_exists
Told destination_already_exists name (some destination_already_exists) r =
    r ≡ err destination_already_exists
Told expected name (some e) r = (unnamed : Error) × IsOther unnamed × (r ≡ err unnamed)

module _ (balancer : BalancerApi) (texts : Texts) where
  open balancer use {
    State, get_services, add_service, get_service, delete_service, add_destination, get_destination,
    delete_destination,
  }

  abbrev create_answer : (State × List Write) → Result String
  create_answer a = Client.create_service texts (ok (respond a.1))

  created-Told :
      (a : State × Service × Option Error)
      → NoSlash a.1.name
      → Told service_already_exists a.1.name a.2 (create_answer (created balancer a))
  unfolding create_failed respond_with Client.create_service Client.id_from_location concat
      Client.format_error
  created-Told (s, svc, none) h = ap ok (service_location svc.name h)
  created-Told (s, svc, some service_already_exists) h = refl
  created-Told (s, svc, some service_not_found) h = (_, (_, refl), refl)
  created-Told (s, svc, some destination_not_found) h = (_, (_, refl), refl)
  created-Told (s, svc, some destination_already_exists) h = (_, (_, refl), refl)
  created-Told (s, svc, some (crash_error e)) h = (_, (_, refl), refl)
  created-Told (s, svc, some (other t)) h = (_, (_, refl), refl)

  -- For a POST of a service that is read and valid, where the name of the service holds no slash, the
  -- state afterwards is the one that AddService leaves, and the client's CreateService returns the
  -- name of the new service, "service already exists", or an unnamed error, as AddService ended.
  pub create_service-service_create :
      (validate : Service → Option FieldErrors) (posted : Service) (s : State)
      → validate (record posted { destinations = [] }) ≡ none
      → NoSlash (add_service (record posted { destinations = [] }) s).1.name
      → let a = add_service (record posted { destinations = [] }) s in
        let answer = service_create balancer validate (ok posted) s in
        (answer.0 ≡ a.0)
        × Told service_already_exists a.1.name a.2
            (Client.create_service texts (ok (respond answer.1)))
  unfolding service_create
  create_service-service_create validate posted s valid h =
      rw (valid, service_create)
        (
          created_state (add_service (record posted { destinations = [] }) s),
          created-Told (add_service (record posted { destinations = [] }) s) h,
        )
    where
      created_state : (a : State × Service × Option Error) → (created balancer a).0 ≡ a.0
      created_state (t, svc, none) = refl
      created_state (t, svc, some e) = refl

  added-Told :
      (service_name : String) (dst : Destination) (a : State × Option Error)
      → NoSlash dst.name
      → Told destination_already_exists dst.name a.1
          (Client.add_destination texts (ok (respond (added balancer service_name dst a).1)))
  unfolding add_failed respond_with Client.add_destination Client.id_from_location concat
      Client.format_error
  added-Told service_name dst (s, none) h = ap ok (destination_location service_name dst.name h)
  added-Told service_name dst (s, some destination_already_exists) h = refl
  added-Told service_name dst (s, some service_not_found) h = (_, (_, refl), refl)
  added-Told service_name dst (s, some destination_not_found) h = (_, (_, refl), refl)
  added-Told service_name dst (s, some service_already_exists) h = (_, (_, refl), refl)
  added-Told service_name dst (s, some (crash_error e)) h = (_, (_, refl), refl)
  added-Told service_name dst (s, some (other t)) h = (_, (_, refl), refl)

  -- For a POST of a destination that is read and valid, to a service that exists, where the name of
  -- the destination holds no slash, the state afterwards is the one that AddDestination leaves, and
  -- the client's AddDestination returns the name of the new destination, "destination already
  -- exists", or an unnamed error for every other failure, "service not found" included.
  pub add_destination-destination_create :
      (validate : Destination → Option FieldErrors) (bind : Destination → Result Destination)
      (service_name : String) (s : State) (svc : Service) (dst : Destination)
      → get_service service_name s ≡ ok svc
      → bind (default_destination service_name) ≡ ok dst
      → validate dst ≡ none
      → NoSlash dst.name
      → let a = add_destination svc dst s in
        let answer = destination_create balancer validate bind service_name s in
        (answer.0 ≡ a.0)
        × Told destination_already_exists dst.name a.1
            (Client.add_destination texts (ok (respond answer.1)))
  unfolding destination_create
  add_destination-destination_create validate bind service_name s svc dst found read valid h =
      rw (found, destination_create)
        (rw (read, destination_create)
          (rw (valid, destination_create)
            (
              added_state (add_destination svc dst s),
              added-Told service_name dst (add_destination svc dst s) h,
            )))
    where
      added_state : (a : State × Option Error) → (added balancer service_name dst a).0 ≡ a.0
      added_state (t, none) = refl
      added_state (t, some e) = refl
