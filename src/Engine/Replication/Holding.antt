-- ===== src/Engine/Replication/Holding.antt =====
-- The maps of the state against the registry that the log describes.
use fusis.Prelude.{
  zero, suc, pos, negsuc, String, ◌==◌, ◌≡◌, refl, ap, ◌∙◌, Option, none, some, List, [], ◌∷◌,
  if◌then◌else◌, arith,
}
use fusis.GoMap.{lookup}
use fusis.GoMap.Laws.{lookup-insert, lookup-delete}
use fusis.Types.{returned, and_then, and_then-returned}
use fusis.Types.Service.{Service}
use fusis.Types.Destination.{Destination}
use fusis.Ipvs.State.{FusisState, add_service, delete_service, add_destination, delete_destination}
use fusis.Ipvs.State.Invariant.{
  IsKeyed, add_service-IsKeyed, delete_service-IsKeyed, add_destination-IsKeyed,
  delete_destination-IsKeyed,
}
use fusis.Engine.{CommandOp, Command, apply_command, dispatch, deref}
use fusis.Engine.Replication.{replay, Contents, put, effect, replay_effects}

-- The state holds what the contents say.
pub record Holds (s : FusisState) (r : Contents) : Type 0 where
  pub keyed : IsKeyed s
  pub services_at : (k : String) → lookup k s.services ≡ r.services k
  pub destinations_at : (k : String) → lookup k s.destinations ≡ r.destinations k

deref-Holds :
    {A : Type 0} (p : Option A) (f : A → FusisState) (g : A → Contents) {u : FusisState}
    → ((a : A) → Holds (f a) (g a))
    → deref p f ≡ returned u
    → (r : Contents) × (deref p g ≡ returned r) × Holds u r
deref-Holds none f g h e = cc
deref-Holds (some a) f g {u} h e =
    let same : f a ≡ u = ground (arith, e) in (g a, refl, rw (← same) (h a))

module _ (s : FusisState) (r : Contents) (h : Holds s r) where
  add_service-Holds :
      (svc : Service)
      → Holds (add_service svc s) (record r { services = put svc.name (some svc) r.services })
  unfolding add_service
  add_service-Holds svc = record {
    keyed = add_service-IsKeyed svc s h.keyed;
    services_at = λ k.
        lookup-insert svc.name k svc s.services
        ∙ ap (λ o. if svc.name == k then some svc else o) (h.services_at k);
    destinations_at = h.destinations_at;
  }

  delete_service-Holds :
      (svc : Service)
      → Holds (delete_service svc s) (record r { services = put svc.name none r.services })
  unfolding delete_service
  delete_service-Holds svc = record {
    keyed = delete_service-IsKeyed svc s h.keyed;
    services_at = λ k.
        lookup-delete svc.name k s.services
        ∙ ap (λ o. if svc.name == k then none else o) (h.services_at k);
    destinations_at = h.destinations_at;
  }

  add_destination-Holds :
      (d : Destination)
      → Holds (add_destination d s) (record r { destinations = put d.name (some d) r.destinations })
  unfolding add_destination
  add_destination-Holds d = record {
    keyed = add_destination-IsKeyed d s h.keyed;
    services_at = h.services_at;
    destinations_at = λ k.
        lookup-insert d.name k d s.destinations
        ∙ ap (λ o. if d.name == k then some d else o) (h.destinations_at k);
  }

  delete_destination-Holds :
      (d : Destination)
      → Holds (delete_destination d s) (record r { destinations = put d.name none r.destinations })
  unfolding delete_destination
  delete_destination-Holds d = record {
    keyed = delete_destination-IsKeyed d s h.keyed;
    services_at = h.services_at;
    destinations_at = λ k.
        lookup-delete d.name k s.destinations
        ∙ ap (λ o. if d.name == k then none else o) (h.destinations_at k);
  }

dispatch-Holds :
    (op : CommandOp) (c : Command) (s : FusisState) (r : Contents) {u : FusisState}
    → Holds s r
    → dispatch op c s ≡ returned u
    → (r' : Contents) × (effect op c r ≡ returned r') × Holds u r'
unfolding dispatch
dispatch-Holds (pos zero) c s r h e = deref-Holds c.service _ _ (add_service-Holds s r h) e
dispatch-Holds (pos (suc zero)) c s r h e = deref-Holds c.service _ _ (delete_service-Holds s r h) e
dispatch-Holds (pos (suc (suc zero))) c s r h e =
    deref-Holds c.destination _ _ (add_destination-Holds s r h) e
dispatch-Holds (pos (suc (suc (suc zero)))) c s r h e =
    deref-Holds c.destination _ _ (delete_destination-Holds s r h) e
dispatch-Holds (pos (suc (suc (suc (suc n))))) c s r {u} h e =
    let same : s ≡ u = ground (arith, e) in (r, refl, rw (← same) h)
dispatch-Holds (negsuc n) c s r {u} h e =
    let same : s ≡ u = ground (arith, e) in (r, refl, rw (← same) h)

pub replay-Holds :
    (cs : List Command) (s : FusisState) (r : Contents) {u : FusisState}
    → Holds s r
    → replay cs s ≡ returned u
    → (r' : Contents) × (replay_effects cs r ≡ returned r') × Holds u r'
unfolding replay replay_effects apply_command
replay-Holds [] s r {u} h e = let same : s ≡ u = ground (arith, e) in (r, refl, rw (← same) h)
replay-Holds (c ∷ cs) s r h e =
    let (t, now, later) = and_then-returned (apply_command c s) (replay cs) e in
    let (r1, first, held) = dispatch-Holds c.op c s r h now in
    let (r', rest, ends) = replay-Holds cs t r1 held later in
    (r', ap (λ o. and_then o (replay_effects cs)) first ∙ rest, ends)
