-- ===== src/Ipvs/State/Laws.antt =====
-- What a lookup finds after each operation on the state.
use fusis.Prelude.{
  String, ◌≡◌, ◌≢◌, refl, sym, ◌∙◌, ap, ◌==◌, eq_iff, eq_refl, eq_false, arith, if◌then◌else◌,
  Option, none, some,
}
use fusis.GoMap.{lookup}
use fusis.GoMap.Laws.{lookup-insert, lookup-delete}
use fusis.Types.{Result, ok, err, service_not_found, destination_not_found}
use fusis.Types.Service.{Service, zero_service}
use fusis.Types.Destination.{Destination, zero_destination}
use fusis.Ipvs.State.{
  FusisState, with_destinations, get_service, add_service, delete_service, get_destination,
  add_destination, delete_destination, get_or,
}

-- What `GetService` returns for a service that is stored under its name.
abbrev pub found_service : FusisState → Service → Result Service
found_service s svc = if svc.name == "" then err service_not_found else ok (with_destinations s svc)

abbrev pub found_destination : Destination → Result Destination
found_destination dst = if dst.name == "" then err destination_not_found else ok dst

-- `GetService` and `GetDestination` as functions of what the map holds.
abbrev pub stored_service : FusisState → Option Service → Result Service
stored_service s none = err service_not_found
stored_service s (some svc) = found_service s svc

abbrev pub stored_destination : Option Destination → Result Destination
stored_destination none = err destination_not_found
stored_destination (some dst) = found_destination dst

pub get_service-stored :
    (k : String) (s : FusisState) → get_service k s ≡ stored_service s (lookup k s.services)
unfolding get_service
get_service-stored k s = by_entry (lookup k s.services)
  where
    by_entry :
        (o : Option Service)
        → (if (get_or zero_service o).name == ""
            then err service_not_found
            else ok (with_destinations s (get_or zero_service o)))
          ≡ stored_service s o
    by_entry none = refl
    by_entry (some svc) = refl

pub get_destination-stored :
    (k : String) (s : FusisState)
    → get_destination k s ≡ stored_destination (lookup k s.destinations)
unfolding get_destination
get_destination-stored k s = by_entry (lookup k s.destinations)
  where
    by_entry :
        (o : Option Destination)
        → (if (get_or zero_destination o).name == ""
            then err destination_not_found
            else ok (get_or zero_destination o))
          ≡ stored_destination o
    by_entry none = refl
    by_entry (some dst) = refl

-- After `AddService`, the name of the service finds it with the destinations that name it (or
-- "service not found" where its name is empty), and every other name finds what it found before.
pub get_service-add_service :
    (svc : Service) (k : String) (s : FusisState)
    → get_service k (add_service svc s)
      ≡ (if svc.name == k then found_service s svc else get_service k s)
unfolding add_service with_destinations
get_service-add_service svc k s = simp (get_service-stored, lookup-insert) (ground arith)

-- After `DeleteService`, the name of the service finds "service not found", and every other name
-- finds what it found before, with its destinations.
pub get_service-delete_service :
    (svc : Service) (k : String) (s : FusisState)
    → get_service k (delete_service svc s)
      ≡ (if svc.name == k then err service_not_found else get_service k s)
unfolding delete_service with_destinations
get_service-delete_service svc k s = simp (get_service-stored, lookup-delete) (ground arith)

-- After `AddDestination`, the name of the destination finds it (or "destination not found" where
-- its name is empty), and every other name finds what it found before.
pub get_destination-add_destination :
    (dst : Destination) (k : String) (s : FusisState)
    → get_destination k (add_destination dst s)
      ≡ (if dst.name == k then found_destination dst else get_destination k s)
unfolding add_destination
get_destination-add_destination dst k s =
    simp (get_destination-stored, lookup-insert) (ground arith)

-- After `DeleteDestination`, the name of the destination finds "destination not found", and every
-- other name finds what it found before.
pub get_destination-delete_destination :
    (dst : Destination) (k : String) (s : FusisState)
    → get_destination k (delete_destination dst s)
      ≡ (if dst.name == k then err destination_not_found else get_destination k s)
unfolding delete_destination
get_destination-delete_destination dst k s =
    simp (get_destination-stored, lookup-delete) (ground arith)

-- `AddService` and `DeleteService` touch no destination: those of a deleted service stay stored.
pub get_destination-delete_service :
    (svc : Service) (k : String) (s : FusisState)
    → get_destination k (delete_service svc s) ≡ get_destination k s
unfolding get_destination delete_service
get_destination-delete_service svc k s = refl

pub get_destination-add_service :
    (svc : Service) (k : String) (s : FusisState)
    → get_destination k (add_service svc s) ≡ get_destination k s
unfolding get_destination add_service
get_destination-add_service svc k s = refl

-- Which service `GetService` found: the stored one, its destinations replaced.
pub get_service-found :
    (k : String) (s : FusisState) {svc : Service}
    → get_service k s ≡ ok svc
    → (raw : Service) × (lookup k s.services ≡ some raw)
      × (raw.name ≢ "")
      × (with_destinations s raw ≡ svc)
get_service-found k s {svc} h =
    by_entry (lookup k s.services) refl (sym (get_service-stored k s) ∙ h)
  where
    by_entry :
        (o : Option Service)
        → lookup k s.services ≡ o
        → stored_service s o ≡ ok svc
        → (raw : Service) × (lookup k s.services ≡ some raw)
          × (raw.name ≢ "")
          × (with_destinations s raw ≡ svc)
    by_entry none e g = cc
    by_entry (some raw) e g =
        (raw, e, ground (arith, eq_iff raw.name ""), ground (arith, eq_iff raw.name ""))

-- A service that is deleted and created again under its name has the destinations of the old one.
pub recreated_service :
    (old new : Service) (s : FusisState)
    → new.name ≢ ""
    → old.name ≡ new.name
    → get_service old.name s ≡ ok old
    → get_service new.name (add_service new (delete_service old s))
      ≡ ok (record new { destinations = old.destinations })
unfolding with_destinations delete_service
recreated_service old new s named same h =
    let (raw, _, _, e) = get_service-found old.name s h in
    rw get_service-add_service (
      rw (eq_refl new.name, eq_false _ _ named)
        (ground
          (arith, ap (λ (r : Service). r.destinations) e, ap (λ (r : Service). r.name) e, same)))
