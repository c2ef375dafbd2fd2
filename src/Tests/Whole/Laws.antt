-- ===== src/Tests/Whole/Laws.antt =====
-- The table works for its services.
use fusis.Prelude.{
  String, ◌==◌, ◌≡◌, ◌≢◌, refl, sym, ◌∙◌, eq_iff, ◌⊎◌, inl, inr, Bool, true, false, List, [], ◌∷◌,
  map, All, arith, if◌then◌else◌, Bool-cases,
}
use fusis.Types.{returned}
use fusis.Types.Service
use fusis.Types.Service.{Service, zero_service}
use fusis.Types.Destination
use fusis.Types.Destination.{Destination}
use fusis.Ipvs.Structs.{
  string_to_ip_proto, ip_proto_to_string, to_ipvs_service, to_ipvs_destination, from_service,
  from_destinations, from_destination, get_service_stats, get_destination_stats,
  destination_flags_to_string,
}
use fusis.Ipvs.Sync.{from_services}
use fusis.Ipvs.Sync.Converges.{has_service, WorkingTable}
use fusis.Ipvs.Sync.Destinations.{has_destination}
use fusis.Ipvs.Sync.Table.{destinations_at}
use fusis.Diff.Laws.{mentions}
use fusis.Diff.Distinct.{mentions-map, map-HasDistinctKeys}
use fusis.Tests.Samples.{texts}
use fusis.Tests.Keyed.{Keyed, without_key, mentions-put, mentions-without_key}
use fusis.Tests.Whole.{
  Spot, read_spot, spot_key, spot_of, sent_spot, Box, read_box, box_key, box_of, sent_box, alter,
  alter_box-key, mentions-alter, whole_kernel,
}

-- The protocols that `fromService` prints.
abbrev pub IsNamed : Service → Type 0
IsNamed s = (s.protocol ≡ "tcp") ⊎ (s.protocol ≡ "udp")

abbrev pub IsAny : Destination → Type 0
IsAny d = Unit

pub any : (l : List Destination) → All IsAny l
any [] = tt
any (d ∷ l) = (tt, any l)

pub box_of-key :
    (s : Service) → IsNamed s → box_key (box_of (to_ipvs_service texts s)) ≡ Service.kernel_key s
unfolding to_ipvs_service string_to_ip_proto Service.kernel_key
box_of-key s (inl e) = rw e refl
box_of-key s (inr e) = rw e refl

pub spot_of-key :
    (d : Destination) → spot_key (spot_of (to_ipvs_destination texts d)) ≡ Destination.kernel_key d
unfolding to_ipvs_destination Destination.kernel_key
spot_of-key d = refl

-- The destinations of the box with a key.
abbrev pub spots_at : String → List Box → Keyed spot_key
spots_at k [] = ([], tt)
spots_at k (x ∷ l) = let rest = spots_at k l in if box_key x == k then x.spots else rest

abbrev pub shown : String → List Box → List Destination
shown k l = map read_spot (spots_at k l).0

pub read_at : (k : String) (l : List Box) → shown k l ≡ destinations_at k (map read_box l)
read_at k [] = refl
read_at k (x ∷ l) = ground (arith, read_at k l)

pub spots_at-alter :
    (k : String) (f : Keyed spot_key → Keyed spot_key) (l : List Box)
    → mentions box_key k l ≡ true
    → spots_at k (alter k f l) ≡ f (spots_at k l)
spots_at-alter k f [] h = absurd (ground (arith, h))
spots_at-alter k f (x ∷ l) h = ground (arith, h, spots_at-alter k f l, alter_box-key f x)

pub spots_at-alter_other :
    (i k : String) (f : Keyed spot_key → Keyed spot_key) (l : List Box)
    → i ≢ k
    → spots_at k (alter i f l) ≡ spots_at k l
spots_at-alter_other i k f [] ne = refl
spots_at-alter_other i k f (x ∷ l) ne = ground (
  arith,
  ne,
  spots_at-alter_other i k f l ne,
  alter_box-key f x,
  eq_iff (box_key x) i,
  eq_iff (box_key x) k,
)

pub spots_at-without_key :
    (i k : String) (l : List Box) → i ≢ k → spots_at k (without_key box_key i l) ≡ spots_at k l
spots_at-without_key i k [] ne = refl
spots_at-without_key i k (x ∷ l) ne =
    ground (arith, ne, spots_at-without_key i k l ne, eq_iff (box_key x) i, eq_iff (box_key x) k)

pub has_spot :
    (k : String) (l : List Spot) → has_destination k (map read_spot l) ≡ mentions spot_key k l
has_spot = mentions-map spot_key Destination.kernel_key read_spot (λ x. refl)

pub has_box : (k : String) (l : List Box) → has_service k (map read_box l) ≡ mentions box_key k l
has_box = mentions-map box_key Service.kernel_key read_box (λ x. refl)

sent_spots :
    (l : List Spot) → from_destinations texts (map sent_spot l) ≡ returned (map read_spot l)
unfolding from_destinations from_destination get_destination_stats destination_flags_to_string
sent_spots [] = refl
sent_spots (x ∷ l) = rw (sent_spots l) refl

sent_box-read : (x : Box) → from_service texts (sent_box x) ≡ returned (read_box x)
unfolding from_service get_service_stats ip_proto_to_string
sent_box-read x =
    rw (sent_spots x.spots.0, from_service)
      (elim (Bool-cases x.udp) [ inl e ↦ rw e refl | inr e ↦ rw e refl ])

pub sent_boxes :
    (l : List Box) → from_services texts whole_kernel (map sent_box l) ≡ returned (map read_box l)
unfolding from_services
sent_boxes [] = refl
sent_boxes (x ∷ l) = rw (sent_box-read x, sent_boxes l) refl

pub read-IsNamed : (l : List Box) → All IsNamed (map read_box l)
read-IsNamed [] = tt
read-IsNamed (x ∷ l) = (by_udp x.udp, read-IsNamed l)
  where
    by_udp : (b : Bool) → IsNamed (record zero_service { protocol = if b then "udp" else "tcp" })
    by_udp true = inr refl
    by_udp false = inl refl

pub has_box-at :
    (s : Service) (t : Keyed box_key)
    → IsNamed s
    → mentions box_key (box_key (box_of (to_ipvs_service texts s))) t.0
      ≡ has_service (Service.kernel_key s) (map read_box t.0)
has_box-at s t named = rw (box_of-key s named) (sym (has_box (Service.kernel_key s) t.0))

unfoldable pub working_boxes : WorkingTable texts whole_kernel IsNamed
working_boxes = record {
  listed = λ t. map sent_box t.0;
  view = λ t. map read_box t.0;
  can_list = λ t. refl;
  can_read = λ t. sent_boxes t.0;
  no_doubles = λ t. map-HasDistinctKeys box_key Service.kernel_key read_box (λ x. refl) t.0 t.1;
  stored = λ t. read-IsNamed t.0;
  added = λ s k t named absent.
      has_box k _
      ∙ (mentions-put box_key (box_of (to_ipvs_service texts s)) k t
          ∙ rw (box_of-key s named) (rw (has_box k t.0) refl));
  deleted = λ s k t named.
      has_box k _
      ∙ (mentions-without_key box_key (box_key (box_of (to_ipvs_service texts s))) k t.0
          ∙ rw (box_of-key s named) (rw (has_box k t.0) refl));
  updated = λ s k t. refl;
  destination_added = λ s d k t. has_box k _ ∙ (mentions-alter _ k _ t.0 ∙ sym (has_box k t.0));
  destination_deleted = λ s d k t. has_box k _ ∙ (mentions-alter _ k _ t.0 ∙ sym (has_box k t.0));
  destination_updated = λ s d k t. refl;
}
