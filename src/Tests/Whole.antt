-- ===== src/Tests/Whole.antt =====
-- A kernel table that works for services and their destinations: its state is the list of its services,
-- each once by address, port and protocol, with its destinations, each once by address and port.
pub mod Laws
pub mod Serving
use fusis.Prelude.{
  ℕ, nat_beq, String, ◌==◌, ◌≡◌, refl, Bool, true, false, List, [], ◌∷◌, map, none, some, pos,
  arith, if◌then◌else◌,
}
use fusis.Types.{ok}
use fusis.Types.Service
use fusis.Types.Service.{Service}
use fusis.Types.Destination
use fusis.Types.Destination.{Destination}
use fusis.Ipvs.Structs.{KernelService, KernelDestination}
use fusis.Ipvs.Sync.{Kernel}
use fusis.Diff.Laws.{mentions, HasDistinctKeys}
use fusis.Tests.Samples.{no_counts, no_conns, texts}
use fusis.Tests.Keyed.{Keyed, put, put_all, drop_key}

pub record Spot : Type 0 where
  pub host : String
  pub port : ℕ

abbrev pub read_spot : Spot → Destination
read_spot x = record {
  name = "";
  host = x.host;
  port = x.port;
  weight = pos 1;
  mode = "nat";
  service_id = "";
  stats = some no_conns;
}

abbrev pub spot_key : Spot → String
spot_key x = Destination.kernel_key (read_spot x)

abbrev pub spot_of : KernelDestination texts → Spot
spot_of d = record { host = d.address; port = d.port }

abbrev pub sent_spot : Spot → KernelDestination texts
sent_spot x = record {
  address = x.host;
  port = x.port;
  weight = pos 1;
  flags = 0;
  statistics = some no_conns;
}

pub record Box : Type 0 where
  pub host : String
  pub port : ℕ
  pub udp : Bool
  pub spots : Keyed spot_key

abbrev pub read_box : Box → Service
read_box x = record {
  name = "";
  host = x.host;
  port = x.port;
  protocol = if x.udp then "udp" else "tcp";
  scheduler = "";
  destinations = map read_spot x.spots.0;
  stats = some no_counts;
}

abbrev pub box_key : Box → String
box_key x = Service.kernel_key (read_box x)

abbrev pub box_of : KernelService texts → Box
box_of s = record {
  host = s.address;
  port = s.port;
  udp = nat_beq s.protocol 17;
  spots = put_all spot_key (map spot_of s.destinations);
}

abbrev pub sent_box : Box → KernelService texts
sent_box x = record {
  address = x.host;
  port = x.port;
  protocol = if x.udp then 17 else 6;
  scheduler = "";
  destinations = map sent_spot x.spots.0;
  statistics = some no_counts;
}

abbrev pub alter_box : (Keyed spot_key → Keyed spot_key) → Box → Box
alter_box f x = record x { spots = f x.spots }

abbrev pub alter : String → (Keyed spot_key → Keyed spot_key) → List Box → List Box
alter k f [] = []
alter k f (x ∷ l) = let rest = alter k f l in (if box_key x == k then alter_box f x else x) ∷ rest

pub alter_box-key :
    (f : Keyed spot_key → Keyed spot_key) (x : Box) → box_key (alter_box f x) ≡ box_key x
unfolding Service.kernel_key
alter_box-key f x = refl

pub mentions-alter :
    (k j : String) (f : Keyed spot_key → Keyed spot_key) (l : List Box)
    → mentions box_key j (alter k f l) ≡ mentions box_key j l
mentions-alter k j f [] = refl
mentions-alter k j f (x ∷ l) = ground (arith, mentions-alter k j f l, alter_box-key f x)

pub alter-HasDistinctKeys :
    (k : String) (f : Keyed spot_key → Keyed spot_key) (l : List Box)
    → HasDistinctKeys box_key l
    → HasDistinctKeys box_key (alter k f l)
alter-HasDistinctKeys k f [] h = tt
alter-HasDistinctKeys k f (x ∷ l) h = (
  ground (arith, h.0, mentions-alter k (box_key x) f l, alter_box-key f x),
  alter-HasDistinctKeys k f l h.1,
)

abbrev pub altered : String → (Keyed spot_key → Keyed spot_key) → Keyed box_key → Keyed box_key
altered k f t = (alter k f t.0, alter-HasDistinctKeys k f t.0 t.1)

abbrev pub whole_kernel : Kernel texts
whole_kernel = record {
  Table = Keyed box_key;
  init = λ t. (t, none);
  flush = λ t. (([], tt), none);
  list_services = λ t. ok (map sent_box t.0);
  add_service = λ s t. (put box_key (box_of s) t, none);
  delete_service = λ s t. (drop_key box_key (box_key (box_of s)) t, none);
  update_service = λ s t. (t, none);
  add_destination = λ s d t. (altered (box_key (box_of s)) (put spot_key (spot_of d)) t, none);
  delete_destination =
      λ s d t. (altered (box_key (box_of s)) (drop_key spot_key (spot_key (spot_of d))) t, none);
  update_destination = λ s d t. (t, none);
  show_service = λ s. s.name;
  show_destination = λ d. d.name;
}
