-- ===== src/Tests/Whole/Serving.antt =====
-- The table works for the destinations of its services.
use fusis.Prelude.{
  String, ◌==◌, ◌≡◌, ◌≢◌, refl, sym, ap, ◌∙◌, true, false, List, [], ◌∷◌, map, arith, if◌then◌else◌,
}
use fusis.Types.Service
use fusis.Types.Service.{Service, zero_service}
use fusis.Types.Destination
use fusis.Types.Destination.{Destination}
use fusis.Ipvs.Structs.{to_ipvs_service, to_ipvs_destination}
use fusis.Ipvs.Sync.Converges.{has_service}
use fusis.Ipvs.Sync.Destinations.{has_destination, WorkingService}
use fusis.Ipvs.Sync.Table.{destinations_at, WholeTable}
use fusis.Diff.Laws.{mentions}
use fusis.Diff.Distinct.{map-HasDistinctKeys}
use fusis.Tests.Samples.{texts}
use fusis.Tests.Keyed.{
  Keyed, put, put_all, drop_key, without_key, mentions-put, put-new, mentions-without_key,
}
use fusis.Tests.Whole.{
  read_spot, spot_key, spot_of, Box, read_box, box_key, box_of, mentions-alter, altered,
  whole_kernel,
}
use fusis.Tests.Whole.Laws.{
  IsNamed, IsAny, any, box_of-key, spot_of-key, spots_at, shown, read_at, spots_at-alter,
  spots_at-alter_other, spots_at-without_key, has_spot, has_box, has_box-at, working_boxes,
}

module _ (s : Service) (named : IsNamed s) where
  abbrev key : String
  key = Service.kernel_key s

  abbrev slot : String
  slot = box_key (box_of (to_ipvs_service texts s))

  abbrev IsThere : Keyed box_key → Type 0
  IsThere t = mentions box_key key t.0 ≡ true

  shown-altered :
      (k : String) (f : Keyed spot_key → Keyed spot_key) (t : Keyed box_key)
      → IsThere t
      → has_destination k (shown key (altered slot f t).0)
        ≡ mentions spot_key k (f (spots_at key t.0)).0
  shown-altered k f t there =
      has_spot k _
      ∙ rw (box_of-key s named)
          (ap (λ (x : Keyed spot_key). mentions spot_key k x.0) (spots_at-alter key f t.0 there))

  shown-apart :
      (k j : String) (f : Keyed spot_key → Keyed spot_key) (t : Keyed box_key)
      → key ≢ k
      → has_destination j (destinations_at k (map read_box (altered slot f t).0))
        ≡ has_destination j (destinations_at k (map read_box t.0))
  shown-apart k j f t ne =
      ap (has_destination j) (sym (read_at k (altered slot f t).0))
      ∙ (rw (box_of-key s named) (
            ap (λ (x : Keyed spot_key). has_destination j (map read_spot x.0))
              (spots_at-alter_other key k f t.0 ne))
          ∙ ap (has_destination j) (read_at k t.0))

  altered-IsThere :
      (f : Keyed spot_key → Keyed spot_key) (t : Keyed box_key)
      → IsThere t
      → IsThere (altered slot f t)
  altered-IsThere f t there = mentions-alter slot key f t.0 ∙ there

  working_box : WorkingService texts whole_kernel s IsAny
  unfolding to_ipvs_destination Destination.kernel_key
  working_box = record {
    serves = IsThere;
    add_serves =
        λ d t there. altered-IsThere (put spot_key (spot_of (to_ipvs_destination texts d))) t there;
    delete_serves = λ d t there.
        altered-IsThere (drop_key spot_key (spot_key (spot_of (to_ipvs_destination texts d)))) t
          there;
    update_serves = λ d t there. there;
    kept = λ t. shown key t.0;
    no_doubles = λ t.
        map-HasDistinctKeys spot_key Destination.kernel_key read_spot (λ x. refl)
          (spots_at key t.0).0 (spots_at key t.0).1;
    stored = λ t. any (shown key t.0);
    can_add = λ d t there valid absent. refl;
    added = λ d k t there valid absent.
        shown-altered k (put spot_key (spot_of (to_ipvs_destination texts d))) t there
        ∙ (mentions-put spot_key (spot_of (to_ipvs_destination texts d)) k (spots_at key t.0)
            ∙ rw (has_spot k (spots_at key t.0).0) refl);
    can_delete = λ d t there valid present. refl;
    deleted = λ d k t there valid present.
        shown-altered k (drop_key spot_key (spot_key (spot_of (to_ipvs_destination texts d)))) t
          there
        ∙ (mentions-without_key spot_key (spot_key (spot_of (to_ipvs_destination texts d))) k
              (spots_at key t.0).0
            ∙ rw (has_spot k (spots_at key t.0).0) refl);
    can_update = λ d t there valid present. refl;
    updated = λ d k t there valid present. refl;
  }

sent_all :
    (j : String) (ds : List Destination)
    → mentions spot_key j (put_all spot_key (map spot_of (map (to_ipvs_destination texts) ds))).0
      ≡ has_destination j ds
sent_all j [] = refl
sent_all j (d ∷ ds) =
    mentions-put spot_key (spot_of (to_ipvs_destination texts d)) j _
    ∙ rw (spot_of-key d) (rw (sent_all j ds) refl)

spots_at-put :
    (x : Box) (k : String) (t : Keyed box_key)
    → mentions box_key (box_key x) t.0 ≡ false
    → spots_at k (put box_key x t).0 ≡ (if box_key x == k then x.spots else spots_at k t.0)
spots_at-put x k t absent = ap (spots_at k) (put-new box_key x t absent)

added_box :
    (s : Service) (k j : String) (t : Keyed box_key)
    → IsNamed s
    → has_service (Service.kernel_key s) (map read_box t.0) ≡ false
    → has_destination j
        (destinations_at k (map read_box (put box_key (box_of (to_ipvs_service texts s)) t).0))
      ≡ (if Service.kernel_key s == k
          then has_destination j s.destinations
          else has_destination j (destinations_at k (map read_box t.0)))
unfolding to_ipvs_service
added_box s k j t named absent =
    let x = box_of (to_ipvs_service texts s) in
    ap (has_destination j) (sym (read_at k (put box_key x t).0))
    ∙ (has_spot j _
        ∙ (ap (λ (y : Keyed spot_key). mentions spot_key j y.0)
              (spots_at-put x k t (has_box-at s t named ∙ absent))
            ∙ ground (
              arith,
              box_of-key s named,
              sent_all j s.destinations,
              has_spot j (spots_at k t.0).0,
              read_at k t.0,
            )))

deleted_box :
    (s : Service) (k j : String) (t : Keyed box_key)
    → IsNamed s
    → Service.kernel_key s ≢ k
    → has_destination j (
        destinations_at k
          (map read_box (drop_key box_key (box_key (box_of (to_ipvs_service texts s))) t).0))
      ≡ has_destination j (destinations_at k (map read_box t.0))
deleted_box s k j t named ne =
    let i = box_key (box_of (to_ipvs_service texts s)) in
    ap (has_destination j) (sym (read_at k (without_key box_key i t.0)))
    ∙ (ap (λ (y : Keyed spot_key). has_destination j (map read_spot y.0))
          (spots_at-without_key i k t.0 (λ e. ne (sym (box_of-key s named) ∙ e)))
        ∙ ap (has_destination j) (read_at k t.0))

pub whole_boxes : WholeTable texts whole_kernel IsNamed IsAny working_boxes
unfolding working_boxes working_box
whole_boxes = record {
  serving = working_box;
  is_served = λ s h t there. sym (has_box (Service.kernel_key s) t.0) ∙ there;
  kept_at = λ s h t. read_at (Service.kernel_key s) t.0;
  can_add = λ s t named absent. refl;
  can_delete = λ s t named there. refl;
  can_update = λ s t named there. refl;
  added_with = added_box;
  deleted_apart = λ s k j t named ne. deleted_box s k j t named ne;
  updated_alone = λ s k j t named. refl;
  add_apart = λ s d k j t named ne.
      shown-apart s named k j (put spot_key (spot_of (to_ipvs_destination texts d))) t ne;
  delete_apart = λ s d k j t named ne.
      shown-apart s named k j (drop_key spot_key (spot_key (spot_of (to_ipvs_destination texts d))))
        t ne;
  update_apart = λ s d k j t named ne. refl;
}
