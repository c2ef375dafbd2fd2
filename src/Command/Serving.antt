-- ===== src/Command/Serving.antt =====
-- When a process serves.
use fusis.Prelude.{String, ◌≡◌, refl, sym, ap, ◌∙◌, Option, none, some, List, [], ◌∷◌, arith}
use fusis.Types.{Error, Result, ok, err, Outcome, returned, panicked}
use fusis.Config.{BalancerConfig, AgentConfig, agent_ip}
use fusis.Net.{Netlink}
use fusis.Engine.Stats.{Ending, done, crash, exit}
use fusis.Balancer.{Platform, Machine}
use fusis.Balancer.Leadership.{vip_interface}
use fusis.Balancer.Leadership.Holders.{FlushableInterface}
use fusis.Balancer.Startup.{PeersFile, Packages, Booted, new_balancer}
use fusis.Balancer.Startup.Starts.{Willing, new_balancer-starts}
use fusis.Agent
use fusis.Agent.{SerfConfig}
use fusis.Command.{
  Act, join, serve, join_pool, wait_signals, with_balancer, with_agent, balancer_command_func,
  run_agent_cmd,
}

module _ (platform : Platform) (packages : Packages) (c : BalancerConfig) (file : PeersFile)
    (m : Machine platform) where
  -- If a balancer process comes as far as to wait for a signal, the forwarding of packets was switched on
  -- and `NewBalancer` succeeded; it then joined the pool if it was given members to join, whether or not that
  -- went well, served the API, and shuts down at the signal.
  pub balancer_command_func-done :
      (forwarding : Option Error) {m' : Machine platform} {acts : List Act}
      → balancer_command_func platform packages forwarding c file m ≡ done (m', acts)
      → (forwarding ≡ none)
        × (acts ≡ join_pool c.join (serve ∷ wait_signals))
        × ((b : Booted platform packages) × (new_balancer platform packages c file m
              ≡ done (m', ok b)))
  unfolding balancer_command_func
  balancer_command_func-done (some e) h = cc
  balancer_command_func-done none {m'} {acts} h =
      by_start (new_balancer platform packages c file m) h
    where
      by_start :
          (r : Ending (Machine platform × Result (Booted platform packages)))
          → with_balancer platform packages c r ≡ done (m', acts)
          → (◌≡◌ {A = Option Error} none none)
            × (acts ≡ join_pool c.join (serve ∷ wait_signals))
            × ((b : Booted platform packages) × (r ≡ done (m', ok b)))
      by_start crash g = cc
      by_start (exit message) g = cc
      by_start (done (m1, err e)) g = cc
      by_start (done (m1, ok b)) g = (refl, ground (arith, g), (b, ground (arith, g)))

  -- A balancer process whose host forwards packets, whose packages come up and whose interface can be
  -- flushed gets to serve, with an interface that holds no address but its own.
  pub balancer_command_func-serves :
      (willing : Willing platform packages c file)
      (flushable : FlushableInterface platform.netlink (vip_interface c))
      → (m' : Machine platform) × (balancer_command_func platform packages none c file m
          ≡ done (m', join_pool c.join (serve ∷ wait_signals)))
        × (flushable.others m'.host ≡ [])
  unfolding balancer_command_func
  balancer_command_func-serves willing flushable =
      let (m', started, left, _) =
        new_balancer-starts platform packages c file willing flushable m in
      (m', rw started refl, left)

-- An agent process that comes as far as to wait for a signal found the address of its interface, started serf
-- with it and under its own name, and joined the one balancer that it was given.
pub run_agent_cmd-done :
    (netlink : Netlink) (created : SerfConfig → Option Error) (joined : Option Error)
    (c : AgentConfig) (h : netlink.Host) {acts : List Act}
    → run_agent_cmd netlink created joined c h ≡ done acts
    → (ip : String) × (agent_ip netlink c h ≡ returned (ok ip))
      × (created (record { tags = ("role", "agent") ∷ []; node_name = c.name; bind_addr = ip })
          ≡ none)
      × (joined ≡ none)
      × (acts ≡ join (c.balancer ∷ []) ∷ wait_signals)
unfolding run_agent_cmd Agent.start
run_agent_cmd-done netlink created joined c h {acts} e = by_ip (agent_ip netlink c h) refl e
  where
    crashed : {A : Type 0} {a : A} → crash ≡ done a → ⊥
    crashed x = cc

    by_join :
        (conf : SerfConfig) (o j : Option Error)
        → with_agent netlink c j (returned (conf, o)) ≡ done acts
        → (o ≡ none) × (j ≡ none) × (acts ≡ join (c.balancer ∷ []) ∷ wait_signals)
    by_join conf (some x) j g = cc
    by_join conf none (some x) g = cc
    by_join conf none none g = (refl, refl, ground (arith, g))

    by_ip :
        (r : Outcome (Result String))
        → agent_ip netlink c h ≡ r
        → with_agent netlink c joined (Agent.start netlink created c h) ≡ done acts
        → (ip : String) × (agent_ip netlink c h ≡ returned (ok ip))
          × (created (record { tags = ("role", "agent") ∷ []; node_name = c.name; bind_addr = ip })
              ≡ none)
          × (joined ≡ none)
          × (acts ≡ join (c.balancer ∷ []) ∷ wait_signals)
    by_ip panicked q g =
        let stopped : Agent.start netlink created c h ≡ panicked = rw (q, Agent.start) refl in
        absurd (crashed (sym (ap (with_agent netlink c joined) stopped) ∙ g))
    by_ip (returned (err x)) q g =
        let stopped : Agent.start netlink created c h ≡ panicked = rw (q, Agent.start) refl in
        absurd (crashed (sym (ap (with_agent netlink c joined) stopped) ∙ g))
    by_ip (returned (ok ip)) q g =
        let conf : SerfConfig = record {
          tags = ("role", "agent") ∷ [];
          node_name = c.name;
          bind_addr = ip;
        } in
        let asked : Agent.start netlink created c h ≡ returned (conf, created conf) =
          rw (q, Agent.start) refl in
        let (started, met, all) =
          by_join conf (created conf) joined (sym (ap (with_agent netlink c joined) asked) ∙ g) in
        (ip, q, started, met, all)
