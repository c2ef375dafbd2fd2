-- ===== src/Tests/State.antt =====
-- The replicated state.
use fusis.Prelude.{◌≡◌, refl, Memᴰ, ◌↔◌, ◌∷◌, []}
use fusis.GoMap.{lookup, values}
use fusis.Types.{ok}
use fusis.Types.Service.{Service}
use fusis.Ipvs.State.{with_destinations, get_services, get_service, add_service, delete_service}
use fusis.Ipvs.State.Laws.{recreated_service}
use fusis.Ipvs.State.Invariant.{get_services_complete}
use fusis.Tests.Samples.{web, one, saved, saved-IsKeyed, web-named}

abbrev found_web : Service
found_web = record web { destinations = one ∷ [] }

pub web_found : get_service "web" saved ≡ ok found_web
unfolding get_service with_destinations lookup values
web_found = refl

get_services_complete_example :
    Memᴰ found_web (get_services saved) ↔ (get_service "web" saved ≡ ok found_web)
get_services_complete_example = get_services_complete found_web saved saved-IsKeyed web-named

-- The destination of the old service serves the new one.
recreated_service_example :
    get_service "web" (add_service (record web { port = 81 }) (delete_service found_web saved))
    ≡ ok (record web { port = 81; destinations = one ∷ [] })
recreated_service_example =
    recreated_service found_web (record web { port = 81 }) saved web-named refl web_found
