-- ===== src/Tests/Exact.antt =====
-- `SyncState` on a table with a stranger, and with "web" that has a destination too many.
use fusis.Prelude.{String, ◌≡◌, refl, List, [], ◌∷◌, map, none, true, false, inl, inr}
use fusis.Prelude.Text.{concat, decimal}
use fusis.GoMap.{values}
use fusis.Types.{returned}
use fusis.Types.Service
use fusis.Types.Destination
use fusis.Ipvs.State.{get_services, with_destinations}
use fusis.Ipvs.Sync.{sync_state}
use fusis.Ipvs.Sync.Converges.{has_service}
use fusis.Ipvs.Sync.Destinations.{has_destination}
use fusis.Ipvs.Sync.Table.{destinations_at}
use fusis.Ipvs.Sync.Exact.{sync_state-exact}
use fusis.Diff.Laws.{HasDistinctKeys}
use fusis.Tests.Samples.{saved, texts}
use fusis.Tests.Keyed.{Keyed}
use fusis.Tests.Whole.{Spot, spot_key, Box, read_box, box_key, whole_kernel}
use fusis.Tests.Whole.Laws.{IsNamed, IsAny, working_boxes}
use fusis.Tests.Whole.Serving.{whole_boxes}

abbrev pub strays : List Spot
strays = record { host = "192.168.0.7"; port = 8080 } ∷ []

pub strays-HasDistinctKeys : HasDistinctKeys spot_key strays
unfolding Destination.kernel_key concat decimal
strays-HasDistinctKeys = (refl, tt)

abbrev pub boxes : List Box
boxes =
    record { host = "10.0.0.9"; port = 1; udp = true; spots = ([], tt) }
    ∷ record { host = "10.0.0.1"; port = 80; udp = false; spots = (strays, strays-HasDistinctKeys) }
    ∷ []

pub boxes-HasDistinctKeys : HasDistinctKeys box_key boxes
unfolding Service.kernel_key concat decimal
boxes-HasDistinctKeys = (refl, (refl, tt))

abbrev pub messy : Keyed box_key
messy = (boxes, boxes-HasDistinctKeys)

pub saved-HasDistinctKeys : HasDistinctKeys Service.kernel_key (get_services saved)
unfolding get_services with_destinations values Service.kernel_key concat decimal
saved-HasDistinctKeys = (refl, (refl, tt))

sync_state-exact_example :
    (t' : Keyed box_key) × (sync_state texts whole_kernel saved messy ≡ returned (t', none))
    × ((k : String) → has_service k (map read_box t'.0) ≡ has_service k (get_services saved))
    × ((k j : String)
        → has_destination j (destinations_at k (map read_box t'.0))
          ≡ has_destination j (destinations_at k (get_services saved)))
unfolding get_services with_destinations values working_boxes
sync_state-exact_example =
    sync_state-exact texts whole_kernel IsNamed IsAny working_boxes whole_boxes saved messy
      (inl refl, (inr refl, tt)) ((tt, tt), (tt, tt)) saved-HasDistinctKeys
