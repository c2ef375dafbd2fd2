-- ===== src/Ipvs/State/Without.antt =====
-- What of `FusisState` is left when some destinations are taken away.
use fusis.Prelude.{
  String, ◌==◌, Bool, false, ◌||◌, Bool-cases, inl, inr, ◌≡◌, refl, ap, ◌∙◌, ◌⊎◌, Option, none,
  some, eq_iff, arith, if◌then◌else◌,
}
use fusis.GoMap.{lookup}
use fusis.Types.{err, ok, destination_not_found}
use fusis.Types.Service.{Service}
use fusis.Types.Destination.{Destination}
use fusis.Ipvs.State
use fusis.Ipvs.State.{FusisState, with_destinations}
use fusis.Ipvs.State.Laws.{
  get_destination-delete_destination, get_destination-stored, get_service-stored, get_service-found,
  stored_destination,
}

-- A destination is found under its own name, and its service exists.
pub record IsHosted (s : FusisState) : Type 0 where
  pub hosted :
      (k : String) (d : Destination)
      → State.get_destination k s ≡ ok d
      → (d.name ≡ k) × (svc : Service) × (State.get_service d.service_id s ≡ ok svc)

-- From `s` to `t` the destinations with these names went, and nothing else changed.
pub record Without (gone : String → Bool) (s t : FusisState) : Type 0 where
  pub destinations :
      (k : String)
      → State.get_destination k t
        ≡ (if gone k then err destination_not_found else State.get_destination k s)
  pub services : t.services ≡ s.services

pub none-Without : (s : FusisState) → Without (λ k. false) s s
none-Without s = record { destinations = λ k. refl; services = refl }

pub both-Without :
    (g h : String → Bool) (s t u : FusisState)
    → Without g s t
    → Without h t u
    → Without (λ k. g k || h k) s u
both-Without g h s t u first second = record {
  destinations = λ k. ground (arith, first.destinations k, second.destinations k);
  services = second.services ∙ first.services;
}

service_stays :
    (k : String) (s t : FusisState) {svc : Service}
    → t.services ≡ s.services
    → State.get_service k s ≡ ok svc
    → (svc' : Service) × (State.get_service k t ≡ ok svc')
service_stays k s t same found =
    let (raw, stored, named, _) = get_service-found k s found in
    (
      with_destinations t raw,
      get_service-stored k t
          ∙ rw (ap (λ m. lookup k m) same ∙ stored) (ground (arith, named, eq_iff raw.name "")),
    )

pub Without-IsHosted :
    (g : String → Bool) (s t : FusisState) → IsHosted s → Without g s t → IsHosted t
Without-IsHosted g s t h w = record {
  hosted = λ k d found.
      let before : State.get_destination k s ≡ ok d = ground (arith, w.destinations k, found) in
      let (named, svc, exists) = h.hosted k d before in
      let (kept, stays) = service_stays d.service_id s t w.services exists in (named, kept, stays);
}

pub found_or_not :
    (k : String) (s : FusisState)
    → (State.get_destination k s ≡ err destination_not_found)
      ⊎ ((d : Destination) × (State.get_destination k s ≡ ok d))
found_or_not k s = by_entry (lookup k s.destinations) (get_destination-stored k s)
  where
    by_entry :
        (o : Option Destination)
        → State.get_destination k s ≡ stored_destination o
        → (State.get_destination k s ≡ err destination_not_found)
          ⊎ ((d : Destination) × (State.get_destination k s ≡ ok d))
    by_entry none e = inl e
    by_entry (some d) e = elim (Bool-cases (d.name == "")) [
      | inl empty ↦ inl (e ∙ rw empty refl)
      | inr full ↦ inr (d, e ∙ rw full refl)
    ]

pub deleted-Without :
    {name : String} (d : Destination)
    → d.name ≡ name
    → (s : FusisState) → Without (λ k. name == k) s (State.delete_destination d s)
unfolding State.delete_destination
deleted-Without d named s =
    rw (← named)
      (record { destinations = λ k. get_destination-delete_destination d k s; services = refl })
