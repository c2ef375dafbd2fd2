-- ===== src/Agent.antt =====
-- fusis/agent.go: the agent on a host, which announces its host to the balancers as a destination.
use fusis.Prelude.{String, ◌==◌, Option, none, List, [], ◌∷◌, ◌++◌, pos, if◌then◌else◌}
use fusis.GoMap.{GoMap}
use fusis.Types.{Error, ok, err, Outcome, returned, panicked}
use fusis.Types.Destination.{Destination}
use fusis.Net.{Netlink}
use fusis.Config.{AgentConfig, agent_ip}

-- The configuration that `Start` hands to serf.
pub record SerfConfig : Type 0 where
  pub tags : GoMap String
  pub node_name : String
  pub bind_addr : String

-- A query that goes out to the members whose tags fit. Its payload is the JSON of a destination,
-- which loses nothing.
pub record Query : Type 0 where
  pub name : String
  pub payload : Destination
  pub filter_tags : GoMap String

-- The events of serf, which come with the names of the members.
pub data Event : Type 0 where
  member_join : List String → Event
  other_event : Event

unfoldable pub announcement : AgentConfig → String → Destination
announcement c host = record {
  name = c.name;
  host = if c.host == "" then host else c.host;
  port = c.port;
  weight = pos 1;
  mode = c.mode;
  service_id = c.service;
  stats = none;
}

module _ (netlink : Netlink) where
  open netlink use {Host}

  abbrev serf_config : AgentConfig → String → SerfConfig
  serf_config c bind_addr = record {
    tags = ("role", "agent") ∷ [];
    node_name = c.name;
    bind_addr = bind_addr;
  }

  -- `Start` up to the call of `serf.Create`, whose result is `created`.
  unfoldable pub start :
      (SerfConfig → Option Error) → AgentConfig → Host → Outcome (SerfConfig × Option Error)
  start created c h = elim (agent_ip netlink c h) [
    | panicked ↦ panicked
    | returned (err e) ↦ panicked
    | returned (ok ip) ↦ returned (serf_config c ip, created (serf_config c ip))
  ]

  -- The queries that are sent; the error of one is logged.
  unfoldable pub broadcast_to_balancers : AgentConfig → Host → Outcome (List Query)
  unfolding announcement
  broadcast_to_balancers c h = elim (agent_ip netlink c h) [
    | panicked ↦ panicked
    | returned (err e) ↦ panicked
    | returned (ok ip) ↦ returned (
        record {
          name = "add-destination";
          payload = announcement c ip;
          filter_tags = ("role", "balancer") ∷ [];
        }
        ∷ [])
  ]

  abbrev both : Outcome (List Query) → Outcome (List Query) → Outcome (List Query)
  both panicked later = panicked
  both (returned now) panicked = panicked
  both (returned now) (returned later) = returned (now ++ later)

  -- The loop over the members of a join: a broadcast for the agent's own name.
  unfoldable pub announce_each : AgentConfig → String → List String → Host → Outcome (List Query)
  announce_each c local [] h = returned []
  announce_each c local (m ∷ ms) h =
      let rest = announce_each c local ms h in
      if m == local then both (broadcast_to_balancers c h) rest else rest

  unfoldable pub handle_event : AgentConfig → String → Event → Host → Outcome (List Query)
  handle_event c local (member_join members) h = announce_each c local members h
  handle_event c local other_event h = returned []

  -- `handleEvents`, over what the channel delivers.
  unfoldable pub handle_events : AgentConfig → String → List Event → Host → Outcome (List Query)
  unfolding handle_event announce_each
  handle_events c local [] h = returned []
  handle_events c local (e ∷ es) h = both (handle_event c local e h) (handle_events c local es h)
