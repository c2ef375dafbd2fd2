-- ===== src/Engine/Replication/Registry.antt =====
-- What a client of a balancer sees of the registry that the log describes.
use mathlib.Core.Path.{subst}
use fusis.Prelude.{
  String, ◌≡◌, ◌≢◌, ◌↔◌, refl, sym, ap, ◌∙◌, eq_iff, eq_false, none, some, List, Memᴰ, mem-select,
  select-mem,
}
use fusis.GoMap.{lookup, values}
use fusis.GoMap.Laws.{mem-lookup, lookup-mem}
use fusis.Types.{returned, ok, err, service_not_found}
use fusis.Types.Service.{Service}
use fusis.Types.Destination
use fusis.Types.Destination.{Destination}
use fusis.Ipvs.State.{
  FusisState, new_fusis_state, get_service, get_destination, with_destinations, belongs_to,
}
use fusis.Ipvs.State.Laws.{
  get_service-stored, get_destination-stored, get_service-found, stored_service, stored_destination,
}
use fusis.Ipvs.State.Invariant.{new_fusis_state-IsKeyed, get_service-name}
use fusis.Engine.{Command}
use fusis.Engine.Replication.{replay, Contents, nothing, replay_effects}
use fusis.Engine.Replication.Holding.{Holds, replay-Holds}

-- What a client sees of contents: a service is found exactly if one is stored under the name and has a
-- name, as it was stored but for its destinations, which are exactly the stored ones that name it; and a
-- destination is found exactly if one is stored and has a name, as it was stored.
pub record Shows (s : FusisState) (r : Contents) : Type 0 where
  pub service_found :
      (k : String) (svc : Service)
      → get_service k s ≡ ok svc
      → (raw : Service) × (r.services k ≡ some raw)
        × (raw.name ≡ k)
        × (svc ≡ record raw { destinations = svc.destinations })
  pub service_missing : (k : String) → r.services k ≡ none → get_service k s ≡ err service_not_found
  pub service_kept :
      (k : String) (raw : Service)
      → r.services k ≡ some raw
      → raw.name ≢ ""
      → (svc : Service) × (get_service k s ≡ ok svc)
  pub its_destinations :
      (k : String) (svc : Service) (d : Destination)
      → get_service k s ≡ ok svc
      → Memᴰ d svc.destinations ↔ ((r.destinations d.name ≡ some d) × (d.service_id ≡ k))
  pub destination_found : (k : String) → get_destination k s ≡ stored_destination (r.destinations k)

module _ (s : FusisState) (r : Contents) (h : Holds s r) where
  mem-with_destinations :
      (raw : Service) (d : Destination)
      → Memᴰ d (with_destinations s raw).destinations
        ↔ ((r.destinations d.name ≡ some d) × (d.service_id ≡ raw.name))
  unfolding with_destinations
  mem-with_destinations raw d = (
    λ m.
        let (listed, mine) = mem-select (belongs_to raw.name) d (values s.destinations) m in
        (
          sym (h.destinations_at d.name)
              ∙ mem-lookup Destination.get_id d s.destinations h.keyed.destinations_by_name
                  h.keyed.destinations_once listed,
          (eq_iff d.service_id raw.name).0 mine,
        ),
    λ p.
        select-mem (belongs_to raw.name) d (values s.destinations)
          (lookup-mem d.name d s.destinations (h.destinations_at d.name ∙ p.0))
          ((eq_iff d.service_id raw.name).1 p.1),
  )

  named_as :
      (k : String) (svc raw : Service)
      → get_service k s ≡ ok svc
      → with_destinations s raw ≡ svc
      → raw.name ≡ k
  unfolding with_destinations
  named_as k svc raw found e = ap (λ (x : Service). x.name) e ∙ get_service-name k s h.keyed found

  Holds-Shows : Shows s r
  unfolding with_destinations
  Holds-Shows = record {
    service_found = λ k svc found.
        let (raw, stored, _, e) = get_service-found k s found in
        (
          raw,
          sym (h.services_at k) ∙ stored,
          named_as k svc raw found e,
          sym e
              ∙ ap (λ (ds : List Destination). record raw { destinations = ds })
                  (ap (λ (x : Service). x.destinations) e),
        );
    service_missing =
        λ k missing. get_service-stored k s ∙ ap (stored_service s) (h.services_at k ∙ missing);
    service_kept = λ k raw there named. (
      with_destinations s raw,
      get_service-stored k s
          ∙ (ap (stored_service s) (h.services_at k ∙ there)
              ∙ rw (eq_false raw.name "" named) refl),
    );
    its_destinations = λ k svc d found.
        let (raw, _, _, e) = get_service-found k s found in
        subst
          (λ (x : Service).
            Memᴰ d x.destinations ↔ ((r.destinations d.name ≡ some d) × (d.service_id ≡ k)))
          e
          (subst
            (λ (id : String).
              Memᴰ d (with_destinations s raw).destinations
              ↔ ((r.destinations d.name ≡ some d) × (d.service_id ≡ id)))
            (named_as k svc raw found e) (mem-with_destinations raw d));
    destination_found =
        λ k. get_destination-stored k s ∙ ap stored_destination (h.destinations_at k);
  }

-- Whatever commands the log holds, unknown operations included, a balancer that starts empty and applies
-- it shows the contents that the log describes: each name has what was stored last and not deleted since.
pub replay-Shows :
    (cs : List Command) {u : FusisState}
    → replay cs new_fusis_state ≡ returned u
    → (r : Contents) × (replay_effects cs nothing ≡ returned r) × Shows u r
unfolding lookup
replay-Shows cs {u} h =
    let (r, e, held) = replay-Holds cs new_fusis_state nothing empty h in
    (r, e, Holds-Shows u r held)
  where
    empty : Holds new_fusis_state nothing
    empty = record {
      keyed = new_fusis_state-IsKeyed;
      services_at = λ k. refl;
      destinations_at = λ k. refl;
    }
