-- ===== src/Types/Service.antt =====
-- api/types/types.go: `Service` and `ServiceStats`.
use fusis.Prelude.{ℕ, String, Option, none, List, [], ◌∷◌}
use fusis.Prelude.Text.{concat, decimal}
use fusis.Types.Destination.{Destination}

pub record ServiceStats : Type 0 where
  pub connections : ℕ
  pub packets_in : ℕ
  pub packets_out : ℕ
  pub bytes_in : ℕ
  pub bytes_out : ℕ
  pub cps : ℕ
  pub pps_in : ℕ
  pub pps_out : ℕ
  pub bps_in : ℕ
  pub bps_out : ℕ

pub record Service : Type 0 where
  pub name : String
  pub host : String
  pub port : ℕ
  pub protocol : String
  pub scheduler : String
  pub destinations : List Destination
  pub stats : Option ServiceStats

-- The zero value that Go gives for a missing key.
abbrev pub zero_service : Service
zero_service = record {
  name = "";
  host = "";
  port = 0;
  protocol = "";
  scheduler = "";
  destinations = [];
  stats = none;
}

abbrev pub get_id : Service → String
get_id svc = svc.name

-- `"%s-%d-%s"`
unfoldable pub kernel_key : Service → String
kernel_key svc = concat (svc.host ∷ "-" ∷ decimal svc.port ∷ "-" ∷ svc.protocol ∷ [])
