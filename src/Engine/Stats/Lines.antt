-- ===== src/Engine/Stats/Lines.antt =====
-- What the statistics say, and when they end the process.
use mathlib.Core.List.Permᴰ
use mathlib.Core.List.{Permᴰ}
use fusis.Prelude.{
  ℕ, suc, String, ◌≡◌, refl, Option, none, some, List, [], ◌∷◌, map, All, arith, eq_iff,
}
use fusis.Prelude.Text.{join}
use fusis.Types.{Error, Result, ok}
use fusis.Types.Service.{Service, ServiceStats}
use fusis.Types.Destination.{Destination, DestinationStats}
use fusis.Config
use fusis.Ipvs.State.{FusisState}
use fusis.Ipvs.Structs.{Network, KernelService, KernelDestination, to_ipvs_service}
use fusis.Ipvs.Structs.Trip.{IsCanonical}
use fusis.Engine.Stats.{
  done, crash, Hook, new_stats_logger, destination_host, collect_stats, run_stats, Line,
}

module _ (network : Network) where
  abbrev pub printed : KernelDestination network → String
  printed d = network.ip_string d.address

  abbrev pub HasCounters : KernelDestination network → Type 0
  HasCounters d = (counted : DestinationStats) × (d.statistics ≡ some counted)

  -- The destination as it was sent, without counters.
  abbrev pub uncounted : KernelDestination network → KernelDestination network
  uncounted d = record d { statistics = none }

  -- The kernel holds the service as it was sent, its destinations in any order, and counts for it and
  -- for each of its destinations.
  pub record Holds (sent held : KernelService network) : Type 0 where
    pub counted : ServiceStats
    pub service : held ≡ record sent { destinations = held.destinations; statistics = some counted }
    pub destinations : Permᴰ (map uncounted held.destinations) sent.destinations
    pub counters : All HasCounters held.destinations

  -- A line that names the service, its protocol and its port, and the hosts of its destinations in
  -- some order.
  pub record Reported (s : Service) (line : Line) : Type 0 where
    pub hosts : List String
    pub each_once : Permᴰ hosts (map destination_host s.destinations)
    pub fields :
        line
        ≡ record { service = s.name; protocol = s.protocol; port = s.port; hosts = join "," hosts }

  abbrev pub AllReported : List Service → List Line → Type 0
  AllReported [] [] = Unit
  AllReported [] (line ∷ lines) = ⊥
  AllReported (s ∷ ss) [] = ⊥
  AllReported (s ∷ ss) (line ∷ lines) = Reported s line × AllReported ss lines

  module _ (get : KernelService network → Result (KernelService network)) where
    -- The kernel reports the service, whose destinations have addresses in their printed form.
    pub record Reports (s : Service) : Type 0 where
      pub held : KernelService network
      pub reported : get (to_ipvs_service network s) ≡ ok held
      pub holds : Holds (to_ipvs_service network s) held
      pub canonical : All (λ d. IsCanonical network d.host) s.destinations

module _ (network : Network) (get : KernelService network → Result (KernelService network)) where
  -- An interval with no type of statistics crashes the balancer at the first tick, whatever it serves;
  -- without an interval nothing is collected.
  pub run_stats_untyped :
      (connect : Hook → Config.Stats → Option Error) (stats : Config.Stats) (hook : Option Hook)
      (s : FusisState) (states : List FusisState)
      → stats.type ≡ ""
      → new_stats_logger connect stats ≡ done hook
      → (run_stats network get hook 0 (s ∷ states) ≡ done [])
        × ((interval : ℕ) → run_stats network get hook (suc interval) (s ∷ states) ≡ crash)
  unfolding new_stats_logger run_stats collect_stats
  run_stats_untyped connect stats hook s states untyped made = (refl, λ interval. rw (← nil) refl)
    where
      nil : none ≡ hook
      nil = ground (arith, untyped, made, eq_iff stats.type "")
