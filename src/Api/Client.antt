-- ===== src/Api/Client.antt =====
-- api/client.go: the client of the HTTP API.
use Prim.Native.Char.{Char, code}
use fusis.Prelude.{ℕ, String, nat_beq, ◌==◌, Option, none, some, List, [], ◌∷◌, if◌then◌else◌}
use fusis.Prelude.Text.{concat, decimal, join}
use fusis.Types.{
  Error, other, service_not_found, service_already_exists, destination_already_exists,
  destination_not_found, Result, ok, err,
}
use fusis.Types.Service.{Service}
use fusis.Api.{Body, services, service, Write, failed, status, header, json, redirect, abort}

-- What the client receives.
pub record Response : Type 0 where
  pub status_code : ℕ
  pub location : String
  pub body : Option Body

-- How gin answers: the first body that is written sends the status with it, a later status is lost;
-- without a body the last status is sent.
unfoldable pub respond_with : Response → List Write → Response
respond_with r [] = r
respond_with r (failed e ∷ ws) = respond_with r ws
respond_with r (status n ∷ ws) = respond_with (record r { status_code = n }) ws
respond_with r (header k v ∷ ws) =
    respond_with (if k == "Location" then record r { location = v } else r) ws
respond_with r (json n b ∷ ws) = record r { status_code = n; body = some b }
respond_with r (redirect n u ∷ ws) = record r { status_code = n; location = u }
respond_with r (abort ∷ ws) = respond_with r ws

abbrev pub respond : List Write → Response
respond ws = respond_with (record { status_code = 200; location = ""; body = none }) ws

-- The text of a body, for error messages.
pub record Texts : Type 0 where
  pub body_text : Option Body → String

-- `strings.Split(s, "/")`
unfoldable pub longer : Char → List String → List String
longer c [] = String.◌∷◌ c "" ∷ []
longer c (part ∷ parts) = String.◌∷◌ c part ∷ parts

unfoldable pub split_slash : String → List String
unfolding longer
split_slash String.[] = "" ∷ []
split_slash (String.◌∷◌ c s) =
    let rest = split_slash s in if nat_beq (code c) b'/' then "" ∷ rest else longer c rest

-- `parts[len(parts)-1]`
unfoldable pub last_part : List String → String
last_part [] = ""
last_part (part ∷ []) = part
last_part (part ∷ more ∷ parts) = last_part (more ∷ parts)

unfoldable pub id_from_location : Response → String
unfolding split_slash last_part
id_from_location r = last_part (split_slash r.location)

-- `strings.TrimRight(addr, "/")`
unfoldable pub trim_right : String → String
trim_right String.[] = ""
trim_right (String.◌∷◌ c s) =
    let rest = trim_right s in
    if rest == ""
    then (if nat_beq (code c) b'/' then "" else String.◌∷◌ c "")
    else String.◌∷◌ c rest

unfoldable pub path : String → List String → String
unfolding trim_right
path addr paths = join "/" (trim_right addr ∷ paths)

module _ (texts : Texts) where
  -- `%q` quotes the body.
  unfoldable pub format_error : Response → Error
  format_error r = other (
      concat (
        "Request failed. Status Code: "
        ∷ decimal r.status_code
        ∷ ". Body: "
        ∷ texts.body_text r.body
        ∷ []))

  abbrev undecoded : Response → Error
  undecoded r = other (concat ("unable to unmarshal body " ∷ texts.body_text r.body ∷ []))

  abbrev decode_services : Response → Option Body → Result (List Service)
  decode_services r (some (services svcs)) = ok svcs
  decode_services r _ = err (undecoded r)

  abbrev decode_service : Response → Option Body → Result Service
  decode_service r (some (service svc)) = ok svc
  decode_service r _ = err (undecoded r)

  -- Each method from the response; a failed exchange is the error of the HTTP client.
  unfoldable pub get_services : Result Response → Result (List Service)
  get_services (err e) = err e
  get_services (ok r) =
      if nat_beq r.status_code 200
      then decode_services r r.body
      else if nat_beq r.status_code 204
      then ok []
      else err (format_error r)

  unfoldable pub get_service : Result Response → Result Service
  get_service (err e) = err e
  get_service (ok r) =
      if nat_beq r.status_code 200
      then decode_service r r.body
      else if nat_beq r.status_code 404
      then err service_not_found
      else err (format_error r)

  unfoldable pub create_service : Result Response → Result String
  create_service (err e) = err e
  create_service (ok r) =
      if nat_beq r.status_code 201
      then ok (id_from_location r)
      else if nat_beq r.status_code 409
      then err service_already_exists
      else err (format_error r)

  unfoldable pub delete_service : Result Response → Option Error
  delete_service (err e) = some e
  delete_service (ok r) =
      if nat_beq r.status_code 404
      then some service_not_found
      else if nat_beq r.status_code 204
      then none
      else some (format_error r)

  unfoldable pub add_destination : Result Response → Result String
  add_destination (err e) = err e
  add_destination (ok r) =
      if nat_beq r.status_code 404
      then err service_not_found
      else if nat_beq r.status_code 409
      then err destination_already_exists
      else if nat_beq r.status_code 201
      then ok (id_from_location r)
      else err (format_error r)

  unfoldable pub delete_destination : Result Response → Option Error
  delete_destination (err e) = some e
  delete_destination (ok r) =
      if nat_beq r.status_code 404
      then some destination_not_found
      else if nat_beq r.status_code 204
      then none
      else some (format_error r)
