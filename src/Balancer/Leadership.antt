-- ===== src/Balancer/Leadership.antt =====
-- fusis/balancer.go: what a balancer does to its interface when raft says that it became the leader or
-- ceased to be. Errors are logged.
pub mod Holders
use fusis.Prelude.{String, Bool, true, false, Option, List, [], ◌∷◌}
use fusis.GoMap.{lookup}
use fusis.Types.{Error, Outcome, returned, panicked}
use fusis.Config.{BalancerConfig}
use fusis.Ipvs.State.{FusisState, get_or}
use fusis.Net.{Netlink, del_vips}
use fusis.Provider.None.{sync_vips}

-- `b.config.Provider.Params["interface"]`
unfoldable pub vip_interface : BalancerConfig → String
vip_interface c = get_or "" (lookup "interface" c.provider.params)

module _ (netlink : Netlink) where
  open netlink use {Host}

  abbrev logged : Outcome (Host × Option Error) → Outcome Host
  logged panicked = panicked
  logged (returned (h, e)) = returned h

  unfoldable pub flush_vips : String → Host → Outcome Host
  flush_vips iface h = logged (del_vips netlink iface h)

  unfoldable pub set_vips : String → FusisState → Host → Outcome Host
  set_vips iface s h = logged (sync_vips netlink iface s h)

  -- The body of the loop of `watchLeaderChanges`.
  unfoldable pub leader_changed : Bool → String → FusisState → Host → Outcome Host
  leader_changed true iface s h = elim (flush_vips iface h) [
    | panicked ↦ panicked
    | returned h' ↦ set_vips iface s h'
  ]
  leader_changed false iface s h = flush_vips iface h

  -- The loop, over what the channel delivers: each change comes with the state at that time.
  unfoldable pub watch_leader_changes : List (Bool × FusisState) → String → Host → Outcome Host
  unfolding leader_changed
  watch_leader_changes [] iface h = returned h
  watch_leader_changes ((leader, s) ∷ changes) iface h = elim (leader_changed leader iface s h) [
    | panicked ↦ panicked
    | returned h' ↦ watch_leader_changes changes iface h'
  ]
