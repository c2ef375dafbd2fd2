-- ===== src/Engine/Stats.antt =====
-- engine/engine.go: the statistics that the engine logs, and how a snapshot is written.
pub mod Lines
use fusis.Prelude.{
  ℕ, zero, suc, String, ◌==◌, ltb, Bool, true, false, Option, none, some, List, [], ◌∷◌, map,
  if◌then◌else◌,
}
use fusis.Prelude.Text.{concat, join}
use fusis.Types.{Error, Result, ok, err, Outcome, returned, panicked, error_text}
use fusis.Types.Service.{Service}
use fusis.Types.Destination.{Destination}
use fusis.Config
use fusis.Config.{BalancerConfig}
use fusis.Ipvs.State.{FusisState, get_services}
use fusis.Ipvs.Structs.{Network, KernelService, to_ipvs_service, from_service}

-- What a goroutine ends in: `log.Fatal` ends the process with a message.
pub data Ending {ℓ} (A : Type ℓ) : Type ℓ where
  done : A → Ending A
  crash : Ending A
  exit : String → Ending A

-- Where the statistics go.
pub data Hook : Type 0 where
  logstash syslog : Hook

abbrev pub add_hook : Hook → String → Option Error → Ending (Option Hook)
add_hook hook message none = done (some hook)
add_hook hook message (some e) = exit (concat (message ∷ error_text e ∷ []))

-- The pointer that `NewStatsLogger` returns: nil if no type is configured. `connect` is the result of
-- the constructor of a hook.
unfoldable pub new_stats_logger :
    (Hook → Config.Stats → Option Error) → Config.Stats → Ending (Option Hook)
new_stats_logger connect stats =
    if stats.type == ""
    then done none
    else if stats.type == "logstash"
    then add_hook logstash "unable to connect to logstash. Err: " (connect logstash stats)
    else if stats.type == "syslog"
    then add_hook syslog "Unable to connect to local syslog daemon. Err: " (connect syslog stats)
    else exit "Unknown stats logger. Please configure properly logstash or syslog."

-- The fields of a line of statistics; the tick is the same for all lines of a collection.
pub record Line : Type 0 where
  pub service : String
  pub protocol : String
  pub port : ℕ
  pub hosts : String

-- What the logger is told: a message alone, or a message with the fields of a line.
pub data Entry : Type 0 where
  info : String → Entry
  info_with : Line → String → Entry

abbrev pub router_stats : Line → Entry
router_stats line = info_with line "Fusis router stats"

abbrev pub destination_host : Destination → String
destination_host d = d.host

abbrev pub line_of : Service → Service → Line
line_of s srv = record {
  service = s.name;
  protocol = s.protocol;
  port = s.port;
  hosts = join "," (map destination_host srv.destinations);
}

abbrev pub read_out : Outcome Service → Ending Service
read_out panicked = crash
read_out (returned svc) = done svc

-- `get` is `gipvs.GetService`.
module _ (network : Network) (get : KernelService network → Result (KernelService network)) where
  abbrev pub read_back : Result (KernelService network) → Ending Service
  read_back (err e) = exit (error_text e)
  read_back (ok service) = read_out (from_service network service)

  unfoldable pub sync_service : Service → Ending Service
  sync_service svc = read_back (get (to_ipvs_service network svc))

  abbrev logged : Ending Service → Service → Ending (List Entry) → Ending (List Entry)
  logged crash s rest = crash
  logged (exit message) s rest = exit message
  logged (done srv) s (done entries) = done (router_stats (line_of s srv) ∷ entries)
  logged (done srv) s crash = crash
  logged (done srv) s (exit message) = exit message

  unfoldable pub collect_each : List Service → Ending (List Entry)
  collect_each [] = done []
  collect_each (s ∷ ss) = logged (sync_service s) s (collect_each ss)

  abbrev after_entry : Entry → Ending (List Entry) → Ending (List Entry)
  after_entry e crash = crash
  after_entry e (exit message) = exit message
  after_entry e (done entries) = done (e ∷ entries)

  -- `CollectStats`; its first call goes through the logger, which may be nil.
  unfoldable pub collect_stats : Option Hook → FusisState → Ending (List Entry)
  unfolding collect_each
  collect_stats none s = crash
  collect_stats (some hook) s = after_entry (info "logging stats") (collect_each (get_services s))

  abbrev tick : Ending (List Entry) → Ending (List (List Entry)) → Ending (List (List Entry))
  tick crash rest = crash
  tick (exit message) rest = exit message
  tick (done entries) (done more) = done (entries ∷ more)
  tick (done entries) crash = crash
  tick (done entries) (exit message) = exit message

  abbrev collect_ticks : Option Hook → List FusisState → Ending (List (List Entry))
  collect_ticks hook [] = done []
  collect_ticks hook (s ∷ ss) = tick (collect_stats hook s) (collect_ticks hook ss)

  -- `collectStats` of the balancer, over the states at the ticks.
  unfoldable pub run_stats : Option Hook → ℕ → List FusisState → Ending (List (List Entry))
  run_stats hook zero states = done []
  run_stats hook (suc interval) states = collect_ticks hook states

-- The calls on the sink of a snapshot.
pub data SinkStep : Type 0 where
  write : String → SinkStep
  close cancel : SinkStep

-- `Persist`: the results are those of the encoding, of the write and of the close.
unfoldable pub persist : Result String → Option Error → Option Error → List SinkStep × Option Error
persist (err e) written closed = (cancel ∷ [], some e)
persist (ok text) (some e) closed = (write text ∷ cancel ∷ [], some e)
persist (ok text) none (some e) = (write text ∷ close ∷ cancel ∷ [], some e)
persist (ok text) none none = (write text ∷ close ∷ [], none)
