-- ===== src/Ipvs/State.antt =====
-- ipvs/state.go: `FusisState`, the services and destinations that the cluster replicates.
-- The methods take the state last and return the new one.
pub mod Laws
pub mod Invariant
pub mod Hosts
pub mod Without
use fusis.Prelude.{String, ◌==◌, Bool, List, map, select, Option, none, some, if◌then◌else◌}
use fusis.GoMap.{GoMap, lookup, insert, delete, values}
use fusis.Types.{Result, ok, err, service_not_found, destination_not_found}
use fusis.Types.Service
use fusis.Types.Service.{Service, zero_service}
use fusis.Types.Destination
use fusis.Types.Destination.{Destination, zero_destination}

pub record FusisState : Type 0 where
  pub services : GoMap Service
  pub destinations : GoMap Destination

abbrev pub new_fusis_state : FusisState
new_fusis_state = record { services = List.[]; destinations = List.[] }

abbrev pub belongs_to : String → Destination → Bool
belongs_to id d = d.service_id == id

-- `svc.Destinations` becomes the destinations that name the service.
unfoldable pub with_destinations : FusisState → Service → Service
with_destinations s svc = record svc {
  destinations = select (belongs_to (Service.get_id svc)) (values s.destinations);
}

unfoldable pub get_services : FusisState → List Service
get_services s = map (with_destinations s) (values s.services)

-- `m[name]` on a map of structs: the zero value for a missing key.
abbrev pub get_or {ℓ} : {V : Type ℓ} → V → Option V → V
get_or d none = d
get_or d (some v) = v

unfoldable pub get_service : String → FusisState → Result Service
get_service name s =
    let svc = get_or zero_service (lookup name s.services) in
    if svc.name == "" then err service_not_found else ok (with_destinations s svc)

unfoldable pub add_service : Service → FusisState → FusisState
add_service svc s = record s { services = insert (Service.get_id svc) svc s.services }

unfoldable pub delete_service : Service → FusisState → FusisState
delete_service svc s = record s { services = delete (Service.get_id svc) s.services }

unfoldable pub get_destination : String → FusisState → Result Destination
get_destination name s =
    let dst = get_or zero_destination (lookup name s.destinations) in
    if dst.name == "" then err destination_not_found else ok dst

unfoldable pub add_destination : Destination → FusisState → FusisState
add_destination dst s = record s {
  destinations = insert (Destination.get_id dst) dst s.destinations;
}

unfoldable pub delete_destination : Destination → FusisState → FusisState
delete_destination dst s = record s {
  destinations = delete (Destination.get_id dst) s.destinations;
}
