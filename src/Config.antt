-- ===== src/Config.antt =====
-- config/config.go: the configuration of the two kinds of nodes.
use fusis.Prelude.{ℕ, ℤ, String, Bool, List}
use fusis.GoMap.{GoMap}
use fusis.Types.{Result, Outcome}
use fusis.Net.{Netlink, get_ip_by_interface}

pub record ProviderConfig : Type 0 where
  pub type : String
  pub params : GoMap String

pub record Stats : Type 0 where
  pub type : String
  pub interval : ℕ
  pub params : GoMap String

pub record BalancerConfig : Type 0 where
  pub interface : String
  pub name : String
  pub bootstrap : Bool
  pub join : List String
  pub provider : ProviderConfig
  pub stats : Stats
  pub config_path : String
  pub ports : GoMap ℕ
  pub dev_mode : Bool
  pub log_interval : ℕ

pub record AgentConfig : Type 0 where
  pub interface : String
  pub balancer : String
  pub name : String
  pub host : String
  pub port : ℕ
  pub weight : ℤ
  pub mode : String
  pub service : String

module _ (netlink : Netlink) where
  open netlink use {Host}

  unfoldable pub balancer_ip : BalancerConfig → Host → Outcome (Result String)
  balancer_ip c h = get_ip_by_interface netlink c.interface h

  unfoldable pub agent_ip : AgentConfig → Host → Outcome (Result String)
  agent_ip c h = get_ip_by_interface netlink c.interface h
