-- ===== src/Api/Routes.antt =====
-- api/api.go: the routes, and the redirection to the leader in front of them.
use fusis.Prelude.{
  String, Bool, true, false, ◌==◌, ◌&&◌, Option, List, [], ◌∷◌, if◌then◌else◌, ◌≡◌, refl, ◌⊎◌, inl,
  inr,
}
use fusis.Prelude.Text.{concat}
use fusis.Types.{Result}
use fusis.Types.Service.{Service}
use fusis.Types.Destination.{Destination}
use fusis.Api.{
  BalancerApi, FieldErrors, Write, abort, redirect, status, service_list, service_get,
  service_create, service_delete, destination_create, destination_delete,
}

-- A request: its method, the parts of its path, its URL, and what can be read from its body.
pub record Request : Type 0 where
  pub method : String
  pub path : List String
  pub url : String
  pub posted_service : Result Service
  pub posted_destination : Destination → Result Destination

-- What `govalidator` says of the records, and the host part of an address.
pub record Helpers : Type 0 where
  pub validate_service : Service → Option FieldErrors
  pub validate_destination : Destination → Option FieldErrors
  pub host_of : String → String

module _ (balancer : BalancerApi) (helpers : Helpers) where
  open balancer use {State, is_leader, get_leader}
  open helpers use {validate_service, validate_destination, host_of}

  abbrev not_routed : State → State × List Write
  not_routed s = (s, status 404 ∷ [])

  abbrev reading : State → List Write → State × List Write
  reading s writes = (s, writes)

  -- `registerRoutes`
  unfoldable pub route : Request → List String → State → State × List Write
  route r (a ∷ []) s =
      if a == "services" && r.method == "GET"
      then reading s (service_list balancer s)
      else if a == "services" && r.method == "POST"
      then service_create balancer validate_service r.posted_service s
      else not_routed s
  route r (a ∷ name ∷ []) s =
      if a == "services" && r.method == "GET"
      then reading s (service_get balancer name s)
      else if a == "services" && r.method == "DELETE"
      then service_delete balancer name s
      else not_routed s
  route r (a ∷ name ∷ b ∷ []) s =
      if a == "services" && (b == "destinations" && r.method == "POST")
      then destination_create balancer validate_destination r.posted_destination name s
      else not_routed s
  route r (a ∷ name ∷ b ∷ dst ∷ []) s =
      if a == "services" && (b == "destinations" && r.method == "DELETE")
      then destination_delete balancer dst s
      else not_routed s
  route r _ s = not_routed s

  -- `redirectMiddleware`, then the route.
  unfoldable pub serve : Request → State → State × List Write
  serve r s = if is_leader s then route r r.path s else (
    s,
    abort ∷ redirect 307 (concat ("http://" ∷ host_of (get_leader s) ∷ ":8000" ∷ r.url ∷ [])) ∷ [],
  )

  same :
      (b : Bool) (s : State) (x y : State × List Write)
      → x.0 ≡ s
      → y.0 ≡ s
      → (if b then x else y).0 ≡ s
  same true s x y h k = h
  same false s x y h k = k

  not_matched :
      (b : Bool) (s : State) (x : State × List Write)
      → (if b && false then x else not_routed s).0 ≡ s
  not_matched true s x = refl
  not_matched false s x = refl

  not_chosen :
      (a b : Bool) (s : State) (x : State × List Write)
      → (if a && (b && false) then x else not_routed s).0 ≡ s
  not_chosen true b s x = not_matched b s x
  not_chosen false b s x = refl

  route_get :
      (r : Request) (parts : List String) (s : State) → r.method ≡ "GET" → (route r parts s).0 ≡ s
  unfolding route
  route_get r [] s h = refl
  route_get r (a ∷ []) s h =
      rw (h, route)
        (same ((a == "services") && true) s (reading s (service_list balancer s)) _ refl
          (not_matched (a == "services") s _))
  route_get r (a ∷ name ∷ []) s h =
      rw (h, route)
        (same ((a == "services") && true) s (reading s (service_get balancer name s)) _ refl
          (not_matched (a == "services") s _))
  route_get r (a ∷ name ∷ b ∷ []) s h =
      rw (h, route) (not_chosen (a == "services") (b == "destinations") s _)
  route_get r (a ∷ name ∷ b ∷ c ∷ []) s h =
      rw (h, route) (not_chosen (a == "services") (b == "destinations") s _)
  route_get r (a ∷ name ∷ b ∷ c ∷ d ∷ parts) s h = refl

  -- A request changes nothing if it is a GET, whatever its path, or if the balancer is not the leader,
  -- whatever the request.
  pub serve_unchanged :
      (r : Request) (s : State) → (is_leader s ≡ false) ⊎ (r.method ≡ "GET") → (serve r s).0 ≡ s
  unfolding serve
  serve_unchanged r s (inl h) = rw (h, serve) refl
  serve_unchanged r s (inr h) =
      same (is_leader s) s (route r r.path s) _ (route_get r r.path s h) refl
