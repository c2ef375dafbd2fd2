-- ===== src/Command.antt =====
-- command/balancer.go, command/agent.go and command/fusis.go: what the two processes do, from their flags
-- to the signal that ends them.
pub mod Serving
use fusis.Prelude.{ℕ, String, Bool, true, false, Option, none, some, List, [], ◌∷◌, pos}
use fusis.Prelude.Text.{concat}
use fusis.Types.{Error, error_text, Result, ok, err, Outcome, returned, panicked}
use fusis.Config.{BalancerConfig, AgentConfig}
use fusis.Net.{Netlink}
use fusis.Engine.Stats.{Ending, done, crash, exit}
use fusis.Balancer.{Platform, Machine}
use fusis.Balancer.Startup.{PeersFile, Packages, Booted, new_balancer}
use fusis.Agent
use fusis.Agent.{SerfConfig}

-- What a process that runs does, in its order. The signal is SIGINT or SIGTERM.
pub data Act : Type 0 where
  join : List String → Act
  serve wait_signal shutdown : Act

-- `setupBalancerCmdFlags`: the configuration before a flag or a file sets it; `hostname` may be "".
abbrev pub balancer_flags : String → BalancerConfig
balancer_flags hostname = record {
  interface = "eth0";
  name = hostname;
  bootstrap = false;
  join = [];
  provider = record { type = ""; params = [] };
  stats = record { type = ""; interval = 0; params = [] };
  config_path = "/etc/fusis";
  ports = [];
  dev_mode = false;
  log_interval = 60;
}

-- `setupConfig`
abbrev pub agent_flags : String → AgentConfig
agent_flags hostname = record {
  interface = "eth0";
  balancer = "";
  name = hostname;
  host = "";
  port = 80;
  weight = pos 1;
  mode = "nat";
  service = "";
}

-- `waitSignals`
abbrev pub wait_signals : List Act
wait_signals = wait_signal ∷ shutdown ∷ []

-- `if len(conf.Join) > 0`; the error of a join is only logged.
abbrev pub join_pool : List String → List Act → List Act
join_pool [] acts = acts
join_pool (a ∷ as') acts = join (a ∷ as') ∷ acts

module _ (platform : Platform) (packages : Packages) where
  abbrev pub with_balancer :
      BalancerConfig
      → Ending (Machine platform × Result (Booted platform packages))
      → Ending (Machine platform × List Act)
  with_balancer c crash = crash
  with_balancer c (exit message) = exit message
  with_balancer c (done (m, err e)) = exit (error_text e)
  with_balancer c (done (m, ok b)) = done (m, join_pool c.join (serve ∷ wait_signals))

  -- `balancerCommandFunc`, from the result of `SetIpForwarding`.
  unfoldable pub balancer_command_func :
      Option Error
      → BalancerConfig
      → PeersFile
      → Machine platform
      → Ending (Machine platform × List Act)
  balancer_command_func (some e) c file m = exit (error_text e)
  balancer_command_func none c file m = with_balancer c (new_balancer platform packages c file m)

module _ (netlink : Netlink) where
  abbrev pub with_agent :
      AgentConfig → Option Error → Outcome (SerfConfig × Option Error) → Ending (List Act)
  with_agent c joined panicked = crash
  with_agent c joined (returned (conf, some e)) = crash
  with_agent c (some e) (returned (conf, none)) = crash
  with_agent c none (returned (conf, none)) = done (join (c.balancer ∷ []) ∷ wait_signals)

  -- `runAgentCmd`, from the results of `serf.Create` and of the join; every error panics.
  unfoldable pub run_agent_cmd :
      (SerfConfig → Option Error) → Option Error → AgentConfig → netlink.Host → Ending (List Act)
  run_agent_cmd created joined c h = with_agent c joined (Agent.start netlink created c h)

-- `Shutdown` of an agent, from the result of `serf.Leave`.
unfoldable pub shutdown_agent : Option Error → Ending (Unit {0})
shutdown_agent none = done tt
shutdown_agent (some e) = exit (concat ("Graceful shutdown failed: " ∷ error_text e ∷ []))
