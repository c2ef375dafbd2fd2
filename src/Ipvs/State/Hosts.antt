-- ===== src/Ipvs/State/Hosts.antt =====
-- The virtual addresses of the services: no two services share one.
use fusis.Prelude.{
  String, ◌≡◌, ◌≢◌, refl, sym, ap, ◌∙◌, eq_iff, eq_false, arith, String-cases, inl, inr, ◌⊎◌,
}
use fusis.Types.{ok}
use fusis.Types.Service.{Service}
use fusis.Types.Destination.{Destination}
use fusis.Ipvs.State.{
  FusisState, with_destinations, get_service, add_service, delete_service, add_destination,
  delete_destination,
}
use fusis.Ipvs.State.Laws.{
  found_service, get_service-stored, get_service-found, get_service-add_service,
  get_service-delete_service,
}

-- Services that are found under two names have different addresses, unless they have none.
pub record HasDistinctHosts (s : FusisState) : Type 0 where
  pub apart :
      (k j : String) (a b : Service)
      → get_service k s ≡ ok a
      → get_service j s ≡ ok b
      → k ≢ j
      → a.host ≢ ""
      → a.host ≢ b.host

found_host : (s : FusisState) (svc a : Service) → found_service s svc ≡ ok a → a.host ≡ svc.host
unfolding with_destinations
found_host s svc a h = ground (arith, eq_iff svc.name "")

module _ (svc : Service) (s : FusisState) where
  found_after :
      (k : String) (a : Service)
      → get_service k (add_service svc s) ≡ ok a
      → ((svc.name ≡ k) × (a.host ≡ svc.host)) ⊎ ((svc.name ≢ k) × (get_service k s ≡ ok a))
  found_after k a h = elim (String-cases svc.name k) [
    | inl e ↦ inl (
      e,
      found_host s svc a (ground (arith, get_service-add_service svc k s, eq_iff svc.name k, e, h)),
    )
    | inr e ↦ inr (e, ground (arith, get_service-add_service svc k s, eq_iff svc.name k, e, h))
  ]

  -- A service whose address is new, or "", may be added.
  pub add_service-HasDistinctHosts :
      HasDistinctHosts s
      → ((k : String) (b : Service)
          → get_service k s ≡ ok b
          → (svc.host ≡ "") ⊎ (svc.host ≢ b.host))
      → HasDistinctHosts (add_service svc s)
  add_service-HasDistinctHosts d new = record {
    apart = λ k j a b ha hb ne named same.
        pair k j a b ne named same (found_after k a ha) (found_after j b hb);
  }
    where
      pair :
          (k j : String) (a b : Service)
          → k ≢ j
          → a.host ≢ ""
          → a.host ≡ b.host
          → ((svc.name ≡ k) × (a.host ≡ svc.host)) ⊎ ((svc.name ≢ k) × (get_service k s ≡ ok a))
          → ((svc.name ≡ j) × (b.host ≡ svc.host)) ⊎ ((svc.name ≢ j) × (get_service j s ≡ ok b))
          → ⊥
      pair k j a b ne named same (inl (p, _)) (inl (q, _)) = ne (sym p ∙ q)
      pair k j a b ne named same (inl (p, e)) (inr (q, hb)) =
          ground (arith, new j b hb, named, same, e)
      pair k j a b ne named same (inr (p, ha)) (inl (q, e)) =
          ground (arith, new k a ha, named, same, e)
      pair k j a b ne named same (inr (p, ha)) (inr (q, hb)) = d.apart k j a b ha hb ne named same

  pub delete_service-HasDistinctHosts : HasDistinctHosts s → HasDistinctHosts (delete_service svc s)
  delete_service-HasDistinctHosts d = record {
    apart = λ k j a b ha hb ne named. d.apart k j a b (before k a ha) (before j b hb) ne named;
  }
    where
      before :
          (k : String) (a : Service)
          → get_service k (delete_service svc s) ≡ ok a
          → get_service k s ≡ ok a
      before k a h = ground (arith, get_service-delete_service svc k s, h)

-- Changing destinations changes no address of a service.
same_services :
    (s t : FusisState) → s.services ≡ t.services → HasDistinctHosts s → HasDistinctHosts t
unfolding with_destinations
same_services s t e d = record {
  apart = λ k j a b ha hb ne named same.
      let (a', la, na, ea) = get_service-found k t ha in
      let (b', lb, nb, eb) = get_service-found j t hb in
      let fa : get_service k s ≡ ok (with_destinations s a') =
        get_service-stored k s ∙ rw e (rw la (rw (eq_false a'.name "" na) refl)) in
      let fb : get_service j s ≡ ok (with_destinations s b') =
        get_service-stored j s ∙ rw e (rw lb (rw (eq_false b'.name "" nb) refl)) in
      let ha' = ap (λ (r : Service). r.host) ea in
      let hb' = ap (λ (r : Service). r.host) eb in
      d.apart k j _ _ fa fb ne (λ z. named (sym ha' ∙ z)) (ha' ∙ (same ∙ sym hb'));
}

pub add_destination-HasDistinctHosts :
    (dst : Destination) (s : FusisState)
    → HasDistinctHosts s
    → HasDistinctHosts (add_destination dst s)
unfolding add_destination
add_destination-HasDistinctHosts dst s d = same_services s (add_destination dst s) refl d

pub delete_destination-HasDistinctHosts :
    (dst : Destination) (s : FusisState)
    → HasDistinctHosts s
    → HasDistinctHosts (delete_destination dst s)
unfolding delete_destination
delete_destination-HasDistinctHosts dst s d = same_services s (delete_destination dst s) refl d
