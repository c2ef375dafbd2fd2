-- ===== src/Tests/Engine.antt =====
-- Commands, snapshots and restores.
use fusis.Prelude.{◌≡◌, refl, List, [], ◌∷◌, Memᴰ, ◌↔◌}
use fusis.GoMap.{lookup, values, has_key}
use fusis.Types.{ok, err, destination_not_found}
use fusis.Types.Service.{Service}
use fusis.Types.Destination.{Destination}
use fusis.Ipvs.State.{FusisState, with_destinations, get_service, get_destination}
use fusis.Ipvs.State.Invariant.{IsKeyed}
use fusis.Engine.{restore_services, snapshot}
use fusis.Engine.Snapshots.{restored, get_service-restored, get_destination-restored, stale_service}
use fusis.Tests.Samples.{web, dns, one, saved, saved-IsKeyed}

abbrev with_web : FusisState
with_web = record { services = ("web", web) ∷ []; destinations = [] }

abbrev found_web : Service
found_web = record web { destinations = one ∷ [] }

web_found : get_service "web" saved ≡ ok found_web
unfolding get_service with_destinations lookup values
web_found = refl

get_service-restored_example :
    (dsts : List Destination) × (get_service "web" (restored saved)
      ≡ ok (record found_web { destinations = dsts }))
    × ((d : Destination) → Memᴰ d dsts ↔ Memᴰ d (one ∷ []))
get_service-restored_example = get_service-restored "web" saved saved-IsKeyed web_found

-- The destination of a service that was deleted is not in the restored state.
abbrev orphaned : FusisState
orphaned = record saved { services = ("dns", dns) ∷ [] }

orphaned-IsKeyed : IsKeyed orphaned
unfolding has_key
orphaned-IsKeyed = record {
  services_by_name = (refl, tt);
  services_once = (refl, tt);
  destinations_by_name = (refl, tt);
  destinations_once = (refl, tt);
}

get_destination-restored_example :
    get_destination "one" (restored orphaned) ≡ err destination_not_found
unfolding lookup has_key
get_destination-restored_example = get_destination-restored "one" orphaned orphaned-IsKeyed

stale_found : get_service "web" with_web ≡ ok web
unfolding get_service with_destinations lookup values
stale_found = refl

stale_service_example :
    (dsts : List Destination) × (get_service "web" (restore_services (snapshot orphaned) with_web)
      ≡ ok (record web { destinations = dsts }))
unfolding lookup
stale_service_example = stale_service "web" orphaned with_web orphaned-IsKeyed refl stale_found
