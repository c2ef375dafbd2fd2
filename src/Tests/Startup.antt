-- ===== src/Tests/Startup.antt =====
-- A balancer that starts, its statistics, and an agent that announces itself and leaves.
use fusis.Prelude.{◌≡◌, refl, true, false, none, some, [], ◌∷◌}
use fusis.Prelude.Text.{concat, decimal}
use fusis.GoMap.{lookup}
use fusis.Types.{Result, ok}
use fusis.Ipvs.Sync.{new_ipvs}
use fusis.Config.{BalancerConfig, balancer_ip}
use fusis.Net.{get_ip_by_interface, del_vips, del_each}
use fusis.Provider.None.{new_provider, new_none}
use fusis.Provider.Ipam.{new_ipam}
use fusis.Engine.Stats.{Ending, done, new_stats_logger}
use fusis.Balancer.{Machine}
use fusis.Balancer.Leadership.{vip_interface}
use fusis.Balancer.Startup
use fusis.Balancer.Startup.{
  PeersFile, missing, Packages, Booted, RaftSetup, new_balancer, read_peers_json, setup_raft,
  setup_serf, new_engine, clean_vips, finish_start, join_cluster, open_stores, connect_raft,
  create_raft,
}
use fusis.Balancer.Startup.Starts.{Willing, no_file, nowhere}
use fusis.Command.{serve, wait_signals, balancer_command_func}
use fusis.Balancer.Startup.Clean.{new_balancer-clean, ElectsItself}
use fusis.Tests.Interface.{keep}
use fusis.Tests.Served.{platform, machine}
use fusis.Tests.Leadership.{flushable_ideal}

abbrev packages : Packages
packages = record {
  decode_peers = λ text. ok (text ∷ []);
  new_tcp_transport = λ ip port. none;
  new_file_snapshot_store = λ path. none;
  new_bolt_store = λ path. none;
  new_raft = λ setup. none;
  serf_create = λ setup. none;
  connect = λ hook stats. none;
}

abbrev configuration : BalancerConfig
configuration = record {
  interface = "eth0";
  name = "b1";
  bootstrap = true;
  join = [];
  provider = record { type = "none"; params = ("interface", "eth0") ∷ [] };
  stats = record { type = ""; interval = 0; params = [] };
  config_path = "/etc/fusis";
  ports = ("raft", 4382) ∷ ("serf", 7946) ∷ [];
  dev_mode = false;
  log_interval = 60;
}

-- What a start on the machine computes with.
start : Unit {0}
unfolding new_balancer read_peers_json setup_raft setup_serf new_engine clean_vips finish_start
    join_cluster open_stores connect_raft create_raft new_provider new_none new_ipam lookup
    new_stats_logger new_ipvs vip_interface balancer_ip get_ip_by_interface del_vips del_each keep
    concat decimal
start = tt

abbrev running : Ending (Machine platform × Result (Booted platform packages))
running = new_balancer platform packages configuration missing machine

abbrev machine_of : Ending (Machine platform × Result (Booted platform packages)) → Machine platform
machine_of (done (m, r)) = m
machine_of _ = machine

abbrev booted : Booted platform packages
booted = record {
  provider = some (record { iface = "eth0"; ipam = "10.0.0.1" ∷ "10.0.0.2" ∷ "10.0.0.3" ∷ [] });
  stats_logger = none;
  raft = record {
    enable_single_node = true;
    ip = "192.168.0.254";
    port = 4382;
    stores = Startup.on_disk "/etc/fusis";
  };
  serf = record {
    tags = ("role", "balancer") ∷ ("raft-port", "4382") ∷ [];
    bind_addr = "192.168.0.254";
    bind_port = 7946;
    node_name = "b1";
  };
}

started : running ≡ done (machine_of running, ok booted)
unfolding start
started = refl

new_balancer-clean_example :
    (flushable_ideal.others (machine_of running).host ≡ [])
    × ElectsItself platform packages configuration missing true
unfolding vip_interface lookup
new_balancer-clean_example =
    new_balancer-clean platform packages configuration missing flushable_ideal machine started

willing : Willing platform packages configuration missing
unfolding start
willing = record {
  provider_type = refl;
  range = "10.0.0.1" ∷ "10.0.0.2" ∷ "10.0.0.3" ∷ [];
  parses = refl;
  initialises = λ t. refl;
  flushes = λ t. refl;
  flush_empties = λ t. refl;
  stats_logger = none;
  logs = nowhere refl;
  peers = [];
  names = no_file;
  link = "eth0";
  has_link = λ h. refl;
  address = "192.168.0.254";
  more = λ h. h.0;
  has_address = λ h. refl;
  has_transport = refl;
  has_snapshots = refl;
  has_store = refl;
  has_raft = λ setup. refl;
  has_serf = λ setup. refl;
}

waiting :
    balancer_command_func platform packages none configuration missing machine
    ≡ done (machine_of running, serve ∷ wait_signals)
unfolding start balancer_command_func
waiting = refl
