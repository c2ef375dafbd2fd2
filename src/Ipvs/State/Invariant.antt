-- ===== src/Ipvs/State/Invariant.antt =====
-- The invariant of the state and what it gives: the maps are keyed by name, each name once.
use fusis.Prelude.{
  String, ◌≡◌, ◌≢◌, refl, sym, ap, ◌∙◌, eq_iff, eq_false, List, [], ◌∷◌, Memᴰ, arith, ◌↔◌, map,
  String-cases, some, inl, inr, true,
}
use fusis.GoMap.{GoMap, lookup, values, has_key}
use fusis.GoMap.Laws.{
  KeyedBy, HasUniqueKeys, insert-KeyedBy, delete-KeyedBy, insert-HasUniqueKeys,
  delete-HasUniqueKeys, mem-lookup, lookup-mem,
}
use fusis.Types.{ok}
use fusis.Types.Service
use fusis.Types.Service.{Service, zero_service}
use fusis.Types.Destination
use fusis.Types.Destination.{Destination}
use fusis.Ipvs.State.Laws.{get_service-stored, get_service-found}
use fusis.Ipvs.State.{
  FusisState, new_fusis_state, with_destinations, get_services, get_service, add_service,
  delete_service, add_destination, delete_destination,
}

pub record IsKeyed (s : FusisState) : Type 0 where
  pub services_by_name : KeyedBy Service.get_id s.services
  pub services_once : HasUniqueKeys s.services
  pub destinations_by_name : KeyedBy Destination.get_id s.destinations
  pub destinations_once : HasUniqueKeys s.destinations

pub new_fusis_state-IsKeyed : IsKeyed new_fusis_state
new_fusis_state-IsKeyed = record {
  services_by_name = tt;
  services_once = tt;
  destinations_by_name = tt;
  destinations_once = tt;
}

pub add_service-IsKeyed : (svc : Service) (s : FusisState) → IsKeyed s → IsKeyed (add_service svc s)
unfolding add_service
add_service-IsKeyed svc s h = record {
  services_by_name = insert-KeyedBy Service.get_id svc s.services h.services_by_name;
  services_once = insert-HasUniqueKeys svc.name svc s.services h.services_once;
  destinations_by_name = h.destinations_by_name;
  destinations_once = h.destinations_once;
}

pub delete_service-IsKeyed :
    (svc : Service) (s : FusisState) → IsKeyed s → IsKeyed (delete_service svc s)
unfolding delete_service
delete_service-IsKeyed svc s h = record {
  services_by_name = delete-KeyedBy Service.get_id svc.name s.services h.services_by_name;
  services_once = delete-HasUniqueKeys svc.name s.services h.services_once;
  destinations_by_name = h.destinations_by_name;
  destinations_once = h.destinations_once;
}

pub add_destination-IsKeyed :
    (dst : Destination) (s : FusisState) → IsKeyed s → IsKeyed (add_destination dst s)
unfolding add_destination
add_destination-IsKeyed dst s h = record {
  services_by_name = h.services_by_name;
  services_once = h.services_once;
  destinations_by_name =
      insert-KeyedBy Destination.get_id dst s.destinations h.destinations_by_name;
  destinations_once = insert-HasUniqueKeys dst.name dst s.destinations h.destinations_once;
}

pub delete_destination-IsKeyed :
    (dst : Destination) (s : FusisState) → IsKeyed s → IsKeyed (delete_destination dst s)
unfolding delete_destination
delete_destination-IsKeyed dst s h = record {
  services_by_name = h.services_by_name;
  services_once = h.services_once;
  destinations_by_name =
      delete-KeyedBy Destination.get_id dst.name s.destinations h.destinations_by_name;
  destinations_once = delete-HasUniqueKeys dst.name s.destinations h.destinations_once;
}

pub ruleset keyed_rules = (
  add_service-IsKeyed, delete_service-IsKeyed, add_destination-IsKeyed, delete_destination-IsKeyed,
)

mem-map {ℓ κ} :
    {A : Type ℓ} {B : Type κ} (f : A → B) {b : B} (xs : List A)
    → Memᴰ b (map f xs)
    → (a : A) × Memᴰ a xs × (f a ≡ b)
mem-map f [] m = elim m [ ]
mem-map f (x ∷ xs) (Memᴰ.head q) = (x, Memᴰ.head refl, sym q)
mem-map f (x ∷ xs) (Memᴰ.tail t) = let (a, m, e) = mem-map f xs t in (a, Memᴰ.tail m, e)

map-mem {ℓ κ} :
    {A : Type ℓ} {B : Type κ} (f : A → B) {a : A} (xs : List A) → Memᴰ a xs → Memᴰ (f a) (map f xs)
map-mem f [] m = elim m [ ]
map-mem f (x ∷ xs) (Memᴰ.head q) = Memᴰ.head (ap f q)
map-mem f (x ∷ xs) (Memᴰ.tail t) = Memᴰ.tail (map-mem f xs t)

listed-found :
    (svc : Service) (s : FusisState)
    → IsKeyed s
    → svc.name ≢ ""
    → Memᴰ svc (get_services s)
    → get_service svc.name s ≡ ok svc
unfolding get_services with_destinations
listed-found svc s keyed named m =
    let (raw, stored, e) = mem-map (with_destinations s) (values s.services) m in
    let at_name =
      mem-lookup Service.get_id raw s.services keyed.services_by_name keyed.services_once stored in
    let same_name = ap (λ (r : Service). r.name) e in
    rw get_service-stored
      (rw (← e) (rw at_name (rw (eq_false raw.name "" (λ p. named (sym same_name ∙ p))) refl)))

pub found-listed :
    (k : String) (svc : Service) (s : FusisState)
    → get_service k s ≡ ok svc
    → Memᴰ svc (get_services s)
unfolding get_services
found-listed k svc s h =
    let (raw, e, _, q) = get_service-found k s h in
    rw (← q) (map-mem (with_destinations s) (values s.services) (lookup-mem k raw s.services e))

-- In a keyed state `GetServices` lists exactly the services that `GetService` finds under their
-- names, for every service with a name.
pub get_services_complete :
    (svc : Service) (s : FusisState)
    → IsKeyed s
    → svc.name ≢ ""
    → Memᴰ svc (get_services s) ↔ (get_service svc.name s ≡ ok svc)
get_services_complete svc s keyed named =
    (listed-found svc s keyed named, found-listed svc.name svc s)

pub found-has_key :
    (k : String) (svc : Service) (m : GoMap Service)
    → KeyedBy Service.get_id m
    → lookup k m ≡ some svc
    → (k ≡ svc.name) × (has_key svc.name m ≡ true)
unfolding lookup has_key
found-has_key k svc [] kb h = cc
found-has_key k svc ((j, w) ∷ m) kb h = elim (String-cases j k) [
  | inl e ↦ ground (arith, kb.0, e, eq_iff j k, eq_iff j svc.name)
  | inr e ↦ ground (arith, e, eq_iff j k, found-has_key k svc m kb.1)
]

-- In a keyed state a service is found under its own name.
pub get_service-name :
    (k : String) (s : FusisState) {svc : Service}
    → IsKeyed s
    → get_service k s ≡ ok svc
    → svc.name ≡ k
unfolding with_destinations
get_service-name k s keyed h =
    let (raw, stored, _, e) = get_service-found k s h in
    sym (ap (λ (r : Service). r.name) e)
    ∙ sym (found-has_key k raw s.services keyed.services_by_name stored).0
