-- ===== src/Ipvs/Structs/Trip.antt =====
-- What comes back when a service is sent to the kernel and read again.
use fusis.Prelude.{
  ℕ, zero, suc, String, ◌≡◌, ◌≢◌, refl, ◌==◌, List, [], ◌∷◌, map, some, arith, if◌then◌else◌, All,
}
use fusis.Types.{returned}
use fusis.Types.Service.{Service, ServiceStats}
use fusis.Types.Destination.{Destination, DestinationStats}
use fusis.Ipvs.Structs.{
  Network, KernelService, KernelDestination, string_to_ip_proto, ip_proto_to_string,
  string_to_destination_flags, destination_flags_to_string, to_ipvs_service, to_ipvs_destination,
  from_service, get_service_stats, get_destination_stats, from_destination, from_destinations,
}

abbrev read_protocol : String → String
read_protocol s = if s == "udp" then "udp" else "tcp"

abbrev read_mode : String → String
read_mode s = if s == "nat" then "nat" else if s == "tunnel" then "tunnel" else "route"

protocol_trip : (s : String) → ip_proto_to_string (string_to_ip_proto s) ≡ read_protocol s
unfolding ip_proto_to_string string_to_ip_proto
protocol_trip s = ground arith

-- The destination as it is read back, with the counters of the kernel.
abbrev pub read_destination : DestinationStats → Destination → Destination
read_destination counted d = record d {
  name = "";
  mode = read_mode d.mode;
  service_id = "";
  stats = some counted;
}

-- Each destination has its own counters, which `each` gives by its place in the list.
abbrev pub read_destinations : (ℕ → DestinationStats) → List Destination → List Destination
read_destinations each [] = []
read_destinations each (d ∷ ds) =
    read_destination (each zero) d ∷ read_destinations (λ i. each (suc i)) ds

abbrev pub read_service : ServiceStats → (ℕ → DestinationStats) → Service → Service
read_service counted each s = record s {
  name = "";
  protocol = read_protocol s.protocol;
  destinations = read_destinations each s.destinations;
  stats = some counted;
}

module _ (network : Network) where
  open network use {Ip, parse_ip, ip_string, nat_mode, tunnel_mode, route_mode}

  -- The text of an address is what `net.IP.String` prints of it.
  abbrev pub IsCanonical : String → Type 0
  IsCanonical host = ip_string (parse_ip host) ≡ host

  -- The kernel keeps what it was sent and attaches its counters, to each destination its own.
  abbrev pub measured_destination :
      DestinationStats → KernelDestination network → KernelDestination network
  measured_destination counted d = record d { statistics = some counted }

  abbrev pub measured_destinations :
      (ℕ → DestinationStats) → List (KernelDestination network) → List (KernelDestination network)
  measured_destinations each [] = []
  measured_destinations each (d ∷ ds) =
      measured_destination (each zero) d ∷ measured_destinations (λ i. each (suc i)) ds

  abbrev pub measured_service :
      ServiceStats → (ℕ → DestinationStats) → KernelService network → KernelService network
  measured_service counted each s = record s {
    destinations = measured_destinations each s.destinations;
    statistics = some counted;
  }

  module _
      (modes : (nat_mode ≢ tunnel_mode)
        × (nat_mode ≢ route_mode)
        × (tunnel_mode ≢ route_mode)) where
    mode_trip :
        (s : String)
        → destination_flags_to_string network (string_to_destination_flags network s) ≡ read_mode s
    unfolding destination_flags_to_string string_to_destination_flags
    mode_trip s = ground (arith, modes.0, modes.1, modes.2)

    destination_trip :
        (each : DestinationStats) (d : Destination)
        → IsCanonical d.host
        → from_destination network (measured_destination each (to_ipvs_destination network d))
          ≡ returned (read_destination each d)
    unfolding from_destination get_destination_stats to_ipvs_destination
    destination_trip each d h = rw (h, mode_trip d.mode) refl

    destinations_trip :
        (each : ℕ → DestinationStats) (ds : List Destination)
        → All (λ d. IsCanonical d.host) ds
        → from_destinations network
            (measured_destinations each (map (to_ipvs_destination network) ds))
          ≡ returned (read_destinations each ds)
    unfolding from_destinations
    destinations_trip each [] h = refl
    destinations_trip each (d ∷ ds) h =
        rw (destination_trip (each zero) d h.0, destinations_trip (λ i. each (suc i)) ds h.1) refl

    -- If the three forwarding modes are different numbers and the addresses are in their printed
    -- form, a service that is sent to the kernel and read back, with counters of its own and of each
    -- destination, has its host, port, scheduler and destinations, in their order, and these counters;
    -- names are gone, an unknown protocol has become "tcp" and an unknown mode "route".
    pub service_trip :
        (counted : ServiceStats) (each : ℕ → DestinationStats) (s : Service)
        → IsCanonical s.host
        → All (λ d. IsCanonical d.host) s.destinations
        → from_service network (measured_service counted each (to_ipvs_service network s))
          ≡ returned (read_service counted each s)
    unfolding from_service get_service_stats to_ipvs_service
    service_trip counted each s h hs =
        ground (arith, destinations_trip each s.destinations hs, h, protocol_trip s.protocol)
