-- ===== src/Tests/Api.antt =====
-- The API on the test server.
use fusis.Prelude.{◌≡◌, refl, inr, none, [], ◌∷◌, arith}
use fusis.Types.{ok}
use fusis.Api.{service_get, service_create, service_delete, destination_create, destination_delete}
use fusis.Api.Routes.{Request, Helpers, serve, serve_unchanged}
use fusis.Api.Client
use fusis.Api.Client.{Texts, respond}
use fusis.Api.Locations.{NoSlash}
use fusis.Api.Trip.{create_service-service_create, add_destination-destination_create}
use fusis.Api.Answers.{
  get_service-service_get, delete_service-service_delete, delete_destination-destination_delete,
}
use fusis.Api.Fake
use fusis.Api.Fake.{
  TestBalancer, fake, new_test_balancer, find_service, has_service, remove_service, found_service,
  append_at, attach, has_destination,
}
use fusis.Tests.Samples.{web, dns, one}

abbrev quoted : Texts
quoted = record { body_text = λ b. "" }

abbrev small_server : TestBalancer
small_server = record { services = web ∷ dns ∷ [] }

abbrev help : Helpers
help = record { validate_service = λ s. none; validate_destination = λ d. none; host_of = λ a. a }

abbrev reading : Request
reading = record {
  method = "GET";
  path = "services" ∷ [];
  url = "/services";
  posted_service = ok web;
  posted_destination = λ d. ok one;
}

serve_unchanged_example : (serve fake help reading small_server).0 ≡ small_server
serve_unchanged_example = serve_unchanged fake help reading small_server (inr refl)

web-NoSlash : NoSlash "web"
web-NoSlash = (omega arith, (omega arith, (omega arith, tt)))

one-NoSlash : NoSlash "one"
one-NoSlash = (omega arith, (omega arith, (omega arith, tt)))

-- What a run on the test server computes with.
run : Unit {0}
unfolding Fake.add_service Fake.delete_service Fake.get_service Fake.add_destination has_service
    find_service remove_service found_service append_at attach has_destination
run = tt

create_service-service_create_example :
    let answer = service_create fake (λ s. none) (ok web) new_test_balancer in
    (answer.0 ≡ record { services = web ∷ [] })
    × (Client.create_service quoted (ok (respond answer.1)) ≡ ok "web")
unfolding run
create_service-service_create_example =
    create_service-service_create fake quoted (λ s. none) web new_test_balancer refl web-NoSlash

abbrev with_one : TestBalancer
with_one = record { services = record web { destinations = one ∷ [] } ∷ dns ∷ [] }

add_destination-destination_create_example :
    let answer = destination_create fake (λ d. none) (λ d. ok one) "web" small_server in
    (answer.0 ≡ with_one) × (Client.add_destination quoted (ok (respond answer.1)) ≡ ok "one")
unfolding run
add_destination-destination_create_example =
    add_destination-destination_create fake quoted (λ d. none) (λ d. ok one) "web" small_server web
      one refl refl refl one-NoSlash

get_service-service_get_example :
    Client.get_service quoted (ok (respond (service_get fake "web" small_server))) ≡ ok web
unfolding run
get_service-service_get_example = get_service-service_get fake quoted "web" small_server

delete_service-service_delete_example :
    Client.delete_service quoted (ok (respond (service_delete fake "web" small_server).1)) ≡ none
unfolding run
delete_service-service_delete_example = delete_service-service_delete fake quoted "web" small_server

without_web : Fake.delete_service "web" small_server ≡ (record { services = dns ∷ [] }, none)
unfolding run
without_web = refl

one_added : Fake.add_destination web one small_server ≡ (with_one, none)
unfolding run
one_added = refl

delete_destination-destination_delete_example :
    Client.delete_destination quoted (ok (respond (destination_delete fake "one" with_one).1))
    ≡ none
unfolding run Fake.get_destination Fake.find_destination Fake.or_later Fake.find_in
    Fake.delete_destination Fake.detach Fake.remove_destination Fake.remove_in
delete_destination-destination_delete_example =
    delete_destination-destination_delete fake quoted "one" with_one
