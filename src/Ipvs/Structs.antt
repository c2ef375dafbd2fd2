-- ===== src/Ipvs/Structs.antt =====
-- ipvs/structs.go: the conversions between the program's records and those of the package `gipvs`,
-- which talks to the kernel.
pub mod Trip
use fusis.Prelude.{
  ℕ, ℤ, String, ◌==◌, nat_beq, Option, none, some, List, [], ◌∷◌, map, if◌then◌else◌,
}
use fusis.Types.{Outcome, returned, panicked}
use fusis.Types.Service.{Service, ServiceStats}
use fusis.Types.Destination.{Destination, DestinationStats}

-- What `gipvs` and `net` provide: addresses, which `net.ParseIP` reads (nil for a text that is no
-- address is one of them), and the numbers of the three forwarding modes.
pub record Network : Type 1 where
  pub Ip : Type 0
  pub parse_ip : String → Ip
  pub ip_string : Ip → String
  pub nat_mode : ℕ
  pub tunnel_mode : ℕ
  pub route_mode : ℕ

abbrev pub ipproto_tcp : ℕ
ipproto_tcp = 6

abbrev pub ipproto_udp : ℕ
ipproto_udp = 17

unfoldable pub string_to_ip_proto : String → ℕ
string_to_ip_proto s = if s == "udp" then ipproto_udp else ipproto_tcp

unfoldable pub ip_proto_to_string : ℕ → String
ip_proto_to_string proto = if nat_beq proto ipproto_udp then "udp" else "tcp"

-- A loop that appends a converted item in each round.
abbrev pub cons_outcome {ℓ} : {A : Type ℓ} → Outcome A → Outcome (List A) → Outcome (List A)
cons_outcome panicked rest = panicked
cons_outcome (returned a) panicked = panicked
cons_outcome (returned a) (returned as') = returned (a ∷ as')

module _ (network : Network) where
  open network use {Ip, parse_ip, ip_string, nat_mode, tunnel_mode, route_mode}

  -- `gipvs.Destination` and `gipvs.Service`; the statistics are pointers.
  pub record KernelDestination : Type 0 where
    pub address : Ip
    pub port : ℕ
    pub weight : ℤ
    pub flags : ℕ
    pub statistics : Option DestinationStats

  pub record KernelService : Type 0 where
    pub address : Ip
    pub port : ℕ
    pub protocol : ℕ
    pub scheduler : String
    pub destinations : List KernelDestination
    pub statistics : Option ServiceStats

  unfoldable pub string_to_destination_flags : String → ℕ
  string_to_destination_flags s =
      if s == "nat" then nat_mode else if s == "tunnel" then tunnel_mode else route_mode

  unfoldable pub destination_flags_to_string : ℕ → String
  destination_flags_to_string flags =
      if nat_beq flags nat_mode
      then "nat"
      else if nat_beq flags tunnel_mode
      then "tunnel"
      else "route"

  unfoldable pub to_ipvs_destination : Destination → KernelDestination
  to_ipvs_destination d = record {
    address = parse_ip d.host;
    port = d.port;
    weight = d.weight;
    flags = string_to_destination_flags d.mode;
    statistics = none;
  }

  unfoldable pub to_ipvs_service : Service → KernelService
  to_ipvs_service s = record {
    address = parse_ip s.host;
    port = s.port;
    protocol = string_to_ip_proto s.protocol;
    scheduler = s.scheduler;
    destinations = map to_ipvs_destination s.destinations;
    statistics = none;
  }

  -- The counters are copied one by one; a nil pointer panics.
  unfoldable pub get_service_stats : KernelService → Outcome ServiceStats
  get_service_stats s = elim s.statistics [
    | none ↦ panicked
    | some c ↦ returned (record {
      connections = c.connections;
      packets_in = c.packets_in;
      packets_out = c.packets_out;
      bytes_in = c.bytes_in;
      bytes_out = c.bytes_out;
      cps = c.cps;
      pps_in = c.pps_in;
      pps_out = c.pps_out;
      bps_in = c.bps_in;
      bps_out = c.bps_out;
    })
  ]

  unfoldable pub get_destination_stats : KernelDestination → Outcome DestinationStats
  get_destination_stats d = elim d.statistics [
    | none ↦ panicked
    | some c ↦ returned (record {
      active_conns = c.active_conns;
      inactive_conns = c.inactive_conns;
      persist_conns = c.persist_conns;
    })
  ]

  unfoldable pub from_destination : KernelDestination → Outcome Destination
  from_destination d = elim (get_destination_stats d) [
    | panicked ↦ panicked
    | returned stats ↦ returned (record {
      name = "";
      host = ip_string d.address;
      port = d.port;
      weight = d.weight;
      mode = destination_flags_to_string d.flags;
      service_id = "";
      stats = some stats;
    })
  ]

  unfoldable pub from_destinations : List KernelDestination → Outcome (List Destination)
  from_destinations [] = returned []
  from_destinations (d ∷ ds) = cons_outcome (from_destination d) (from_destinations ds)

  unfoldable pub from_service : KernelService → Outcome Service
  from_service s = elim (from_destinations s.destinations) [
    | panicked ↦ panicked
    | returned destinations ↦ elim (get_service_stats s) [
      | panicked ↦ panicked
      | returned stats ↦ returned (record {
        name = "";
        host = ip_string s.address;
        port = s.port;
        protocol = ip_proto_to_string s.protocol;
        scheduler = s.scheduler;
        destinations = destinations;
        stats = some stats;
      })
    ]
  ]
