-- ===== src/Types/Destination.antt =====
-- api/types/types.go: `Destination` and `DestinationStats`.
use fusis.Prelude.{ℕ, String, Option, none, [], ◌∷◌, ℤ, pos}
use fusis.Prelude.Text.{concat, decimal}

pub record DestinationStats : Type 0 where
  pub active_conns : ℕ
  pub inactive_conns : ℕ
  pub persist_conns : ℕ

pub record Destination : Type 0 where
  pub name : String
  pub host : String
  pub port : ℕ
  pub weight : ℤ
  pub mode : String
  pub service_id : String
  pub stats : Option DestinationStats

-- The zero value that Go gives for a missing key.
abbrev pub zero_destination : Destination
zero_destination = record {
  name = "";
  host = "";
  port = 0;
  weight = pos 0;
  mode = "";
  service_id = "";
  stats = none;
}

abbrev pub get_id : Destination → String
get_id dst = dst.name

-- `"%s-%d"`
unfoldable pub kernel_key : Destination → String
kernel_key dst = concat (dst.host ∷ "-" ∷ decimal dst.port ∷ [])
