-- ===== src/Api/Answers.antt =====
-- What a client learns from the answers to a deletion and to a read.
use fusis.Prelude.{String, Option, none, some, List, [], ◌∷◌, ◌≡◌, refl, inl, inr, ◌⊎◌}
use fusis.Types.{
  Error, is_not_found, service_not_found, service_already_exists, destination_already_exists,
  destination_not_found, crash_error, other, Result, ok, err,
}
use fusis.Types.Service.{Service}
use fusis.Types.Destination.{Destination}
use fusis.Api.{
  BalancerApi, Body, Write, service_list, service_get, service_delete, destination_delete,
  lookup_failed, destination_lookup_failed, deleted, destination_deleted,
}
use fusis.Api.Client
use fusis.Api.Client.{Texts, respond, respond_with}
use fusis.Api.Trip.{IsOther}

-- The result of a lookup, as the client sees it: the service, "service not found", or an unnamed
-- error.
abbrev pub Found : Result Service → Result Service → Type 0
Found (ok svc) r = r ≡ ok svc
Found (err service_not_found) r = r ≡ err service_not_found
Found (err e) r = (unnamed : Error) × IsOther unnamed × (r ≡ err unnamed)

-- The result of a deletion, as the client sees it: success, or an unnamed error.
abbrev pub Gone : Option Error → Option Error → Type 0
Gone none r = r ≡ none
Gone (some e) r = (unnamed : Error) × IsOther unnamed × (r ≡ some unnamed)

-- The same after a lookup: where it found nothing, the client names that error.
abbrev pub ServiceGone : Result Service → Option Error → Option Error → Type 0
ServiceGone (ok svc) e r = Gone e r
ServiceGone (err service_not_found) e r = r ≡ some service_not_found
ServiceGone (err l) e r = Gone (some l) r

abbrev pub DestinationGone : Result Destination → Option Error → Option Error → Type 0
DestinationGone (ok dst) e r = Gone e r
DestinationGone (err service_not_found) e r = r ≡ some destination_not_found
DestinationGone (err destination_not_found) e r = r ≡ some destination_not_found
DestinationGone (err l) e r = Gone (some l) r

Result-cases {ℓ} :
    {A : Type ℓ} (r : Result A) → ((a : A) × (r ≡ ok a)) ⊎ ((e : Error) × (r ≡ err e))
Result-cases (ok a) = inl (a, refl)
Result-cases (err e) = inr (e, refl)

module _ (balancer : BalancerApi) (texts : Texts) where
  open balancer use {
    State, get_services, get_service, delete_service, get_destination, delete_destination,
  }

  -- The client's GetServices gives exactly the services that the balancer lists, an empty list, which
  -- is sent without a body, included.
  pub get_services-service_list :
      (s : State)
      → Client.get_services texts (ok (respond (service_list balancer s))) ≡ ok (get_services s)
  unfolding service_list Client.get_services respond_with
  get_services-service_list s = by_list (get_services s)
    where
      by_list :
          (svcs : List Service)
          → Client.get_services texts (
              ok (
                respond (elim svcs [
                  | [] ↦ Write.status 204 ∷ []
                  | svc ∷ svcs ↦ Write.json 200 (Body.services (svc ∷ svcs)) ∷ []
                ])))
            ≡ ok svcs
      by_list [] = refl
      by_list (svc ∷ svcs) = refl

  lookup_seen :
      (e : Error) → Found (err e) (Client.get_service texts (ok (respond (lookup_failed 500 e))))
  unfolding lookup_failed respond_with Client.get_service Client.format_error
  lookup_seen service_not_found = refl
  lookup_seen destination_not_found = (_, (_, refl), refl)
  lookup_seen service_already_exists = (_, (_, refl), refl)
  lookup_seen destination_already_exists = (_, (_, refl), refl)
  lookup_seen (crash_error e) = (_, (_, refl), refl)
  lookup_seen (other t) = (_, (_, refl), refl)

  -- The client's GetService gives the service that the balancer finds under the name, "service not
  -- found" exactly as the balancer does, and an unnamed error for its other errors.
  pub get_service-service_get :
      (name : String) (s : State)
      → Found
          (get_service name s)
          (Client.get_service texts (ok (respond (service_get balancer name s))))
  unfolding service_get Client.get_service respond_with
  get_service-service_get name s = elim (Result-cases (get_service name s)) [
    | inl (svc, e) ↦ rw (e, service_get) refl
    | inr (e, q) ↦ rw (q, service_get) (lookup_seen e)
  ]

  service_kept :
      (l : Error) (e : Option Error)
      → ServiceGone (err l) e (Client.delete_service texts (ok (respond (lookup_failed 400 l))))
  unfolding lookup_failed respond_with Client.delete_service Client.format_error
  service_kept service_not_found e = refl
  service_kept destination_not_found e = (_, (_, refl), refl)
  service_kept service_already_exists e = (_, (_, refl), refl)
  service_kept destination_already_exists e = (_, (_, refl), refl)
  service_kept (crash_error l) e = (_, (_, refl), refl)
  service_kept (other t) e = (_, (_, refl), refl)

  service-Gone :
      (a : State × Option Error)
      → Gone a.1 (Client.delete_service texts (ok (respond (deleted balancer a).1)))
  unfolding respond_with Client.delete_service Client.format_error
  service-Gone (s, none) = refl
  service-Gone (s, some e) = (_, (_, refl), refl)

  -- The client's DeleteService succeeds exactly if the balancer found the service and deleted it; it
  -- says "service not found" exactly if the lookup did, and gives an unnamed error for every other
  -- failure, also if the deletion itself ends in "service not found".
  pub delete_service-service_delete :
      (name : String) (s : State)
      → ServiceGone
          (get_service name s)
          (delete_service name s).1
          (Client.delete_service texts (ok (respond (service_delete balancer name s).1)))
  unfolding service_delete
  delete_service-service_delete name s = elim (Result-cases (get_service name s)) [
    | inl (svc, e) ↦ rw (e, service_delete) (service-Gone (delete_service name s))
    | inr (e, q) ↦ rw (q, service_delete) (service_kept e (delete_service name s).1)
  ]

  destination_kept :
      (l : Error) (e : Option Error)
      → DestinationGone
          (err l)
          e
          (Client.delete_destination texts (ok (respond (destination_lookup_failed l))))
  unfolding destination_lookup_failed respond_with Client.delete_destination Client.format_error
      is_not_found
  destination_kept service_not_found e = refl
  destination_kept destination_not_found e = refl
  destination_kept service_already_exists e = (_, (_, refl), refl)
  destination_kept destination_already_exists e = (_, (_, refl), refl)
  destination_kept (crash_error l) e = (_, (_, refl), refl)
  destination_kept (other t) e = (_, (_, refl), refl)

  destination-Gone :
      (a : State × Option Error)
      → Gone a.1 (Client.delete_destination texts (ok (respond (destination_deleted balancer a).1)))
  unfolding respond_with Client.delete_destination Client.format_error
  destination-Gone (s, none) = refl
  destination-Gone (s, some e) = (_, (_, refl), refl)

  -- What the balancer says of a deletion, from the lookup of the destination.
  abbrev verdict : State → Result Destination → Option Error
  verdict s (ok dst) = (delete_destination dst s).1
  verdict s (err e) = none

  -- The client's DeleteDestination succeeds exactly if the balancer found the destination and deleted
  -- it; it says "destination not found" exactly if the lookup found nothing, and gives an unnamed
  -- error for every other failure: the status 204 that the handler sets after a failure is lost.
  pub delete_destination-destination_delete :
      (name : String) (s : State)
      → DestinationGone
          (get_destination name s)
          (verdict s (get_destination name s))
          (Client.delete_destination texts (ok (respond (destination_delete balancer name s).1)))
  unfolding destination_delete
  delete_destination-destination_delete name s = elim (Result-cases (get_destination name s)) [
    | inl (dst, e) ↦ rw (e, destination_delete) (destination-Gone (delete_destination dst s))
    | inr (e, q) ↦ rw (q, destination_delete) (destination_kept e none)
  ]
