-- ===== src/Tests/Samples.antt =====
-- The data of the tests.
use fusis.Prelude.{String, [], ◌∷◌, pos, none, refl, ◌≢◌, arith, eq_iff}
use fusis.Types.Service.{Service, ServiceStats}
use fusis.Types.Destination.{Destination, DestinationStats}
use fusis.Ipvs.State.{FusisState}
use fusis.GoMap.{has_key}
use fusis.Ipvs.Structs.{Network}
use fusis.Ipvs.State.Invariant.{IsKeyed}

abbrev pub web : Service
web = record {
  name = "web";
  host = "10.0.0.1";
  port = 80;
  protocol = "tcp";
  scheduler = "rr";
  destinations = [];
  stats = none;
}

abbrev pub dns : Service
dns = record web { name = "dns"; host = "10.0.0.2"; port = 53; protocol = "udp" }

abbrev pub one : Destination
one = record {
  name = "one";
  host = "192.168.0.1";
  port = 8080;
  weight = pos 1;
  mode = "nat";
  service_id = "web";
  stats = none;
}

-- The service "web" with its destination, and "dns" with none.
abbrev pub saved : FusisState
saved = record { services = ("web", web) ∷ ("dns", dns) ∷ []; destinations = ("one", one) ∷ [] }

pub saved-IsKeyed : IsKeyed saved
unfolding has_key
saved-IsKeyed = record {
  services_by_name = (refl, (refl, tt));
  services_once = (refl, (refl, tt));
  destinations_by_name = (refl, tt);
  destinations_once = (refl, tt);
}

abbrev pub no_counts : ServiceStats
no_counts = record {
  connections = 0;
  packets_in = 0;
  packets_out = 0;
  bytes_in = 0;
  bytes_out = 0;
  cps = 0;
  pps_in = 0;
  pps_out = 0;
  bps_in = 0;
  bps_out = 0;
}

abbrev pub no_conns : DestinationStats
no_conns = record { active_conns = 0; inactive_conns = 0; persist_conns = 0 }

pub web-named : ◌≢◌ {A = String} "web" ""
web-named = ground (arith, eq_iff "web" "")

-- A network on which addresses are texts.
abbrev pub texts : Network
texts = record {
  Ip = String;
  parse_ip = λ s. s;
  ip_string = λ s. s;
  nat_mode = 0;
  tunnel_mode = 2;
  route_mode = 3;
}
