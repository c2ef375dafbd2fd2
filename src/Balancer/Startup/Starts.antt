-- ===== src/Balancer/Startup/Starts.antt =====
-- A balancer starts if the packages that it stands on do.
use fusis.Prelude.{
  String, ◌≡◌, ◌≢◌, refl, ltb, ◌&&◌, Option, none, some, List, [], ◌∷◌, length, if◌then◌else◌,
  Bool-cases, inl, inr,
}
use fusis.Prelude.Text.{decimal}
use fusis.GoMap.{lookup}
use fusis.Types.{Error, Result, ok, returned}
use fusis.Config
use fusis.Config.{BalancerConfig, balancer_ip}
use fusis.Net.{get_ip_by_interface}
use fusis.Ipvs.State.{get_or}
use fusis.Ipvs.Sync.{new_ipvs}
use fusis.Engine.Stats.{done, Hook, logstash, syslog, new_stats_logger}
use fusis.Provider.Ipam.{new_ipam}
use fusis.Provider.None.{NoneProvider, new_provider, new_none}
use fusis.Balancer.{Platform, Machine}
use fusis.Balancer.Leadership.{vip_interface}
use fusis.Balancer.Leadership.Holders.{FlushableInterface, del_vips-others}
use fusis.Balancer.Startup.{
  PeersFile, missing, contents, Packages, in_memory, on_disk, RaftSetup, SerfSetup, read_peers_json,
  port_of, open_stores, create_raft, connect_raft, finish_start, join_cluster, setup_raft,
  setup_serf, new_engine, clean_vips, new_balancer,
}

-- The peers that the file names; none where it is missing or empty.
pub data Names (decode : String → Result (List String)) : PeersFile → List String → Type 0 where
  no_file : Names decode missing []
  empty_file : Names decode (contents "") []
  decoded :
      {text : String} {peers : List String}
      → text ≢ ""
      → decode text ≡ ok peers
      → Names decode (contents text) peers

-- The logger that the configuration asks for, where its hook connects.
pub data Logs (connect : Hook → Config.Stats → Option Error) (stats : Config.Stats)
    : Option Hook → Type 0 where
  nowhere : stats.type ≡ "" → Logs connect stats none
  to_logstash :
      stats.type ≡ "logstash" → connect logstash stats ≡ none → Logs connect stats (some logstash)
  to_syslog : stats.type ≡ "syslog" → connect syslog stats ≡ none → Logs connect stats (some syslog)

-- What the packages answer to a balancer that may start: it has a range of addresses and an interface
-- with an address; the kernel's module and its flush, which leaves no service, work; and the hook of the
-- statistics, the stores, raft and serf come up.
pub record Willing (platform : Platform) (packages : Packages) (c : BalancerConfig)
    (file : PeersFile) : Type 0 where
  pub provider_type : c.provider.type ≡ "none"
  pub range : platform.ranges.Cursor
  pub parses : platform.ranges.parse (get_or "" (lookup "vipRange" c.provider.params)) ≡ ok range
  pub initialises : (t : platform.kernel.Table) → (platform.kernel.init t).1 ≡ none
  pub flushes : (t : platform.kernel.Table) → (platform.kernel.flush t).1 ≡ none
  pub flush_empties :
      (t : platform.kernel.Table)
      → platform.kernel.list_services (platform.kernel.flush t).0 ≡ ok []
  pub stats_logger : Option Hook
  pub logs : Logs packages.connect c.stats stats_logger
  pub peers : List String
  pub names : Names packages.decode_peers file peers
  pub link : platform.netlink.Link
  pub has_link : (h : platform.netlink.Host) → platform.netlink.link_by_name c.interface h ≡ ok link
  pub address : platform.netlink.Addr
  pub more : platform.netlink.Host → List platform.netlink.Addr
  pub has_address :
      (h : platform.netlink.Host) → platform.netlink.addr_list link h ≡ ok (address ∷ more h)
  pub has_transport :
      packages.new_tcp_transport (platform.netlink.ip_string address) (port_of "raft" c) ≡ none
  pub has_snapshots : packages.new_file_snapshot_store c.config_path ≡ none
  pub has_store : packages.new_bolt_store c.config_path ≡ none
  pub has_raft : (setup : RaftSetup) → packages.new_raft setup ≡ none
  pub has_serf : (setup : SerfSetup) → packages.serf_create setup ≡ none

module _ (platform : Platform) (packages : Packages) (c : BalancerConfig) (file : PeersFile)
    (willing : Willing platform packages c file) where
  open platform use {network, kernel, netlink, ranges}
  open willing use {
    provider_type, range, parses, initialises, flushes, flush_empties, stats_logger, logs, peers,
    names, link, has_link, address, more, has_address, has_transport, has_snapshots, has_store,
    has_raft, has_serf,
  }

  -- The first address of the interface of the configuration.
  abbrev pub ip : String
  ip = netlink.ip_string address

  has_ip : (h : netlink.Host) → balancer_ip netlink c h ≡ returned (ok ip)
  unfolding balancer_ip get_ip_by_interface
  has_ip h = rw (has_link h, balancer_ip, get_ip_by_interface) (rw (has_address h) refl)

  abbrev pub own_provider : NoneProvider ranges
  own_provider = record { iface = get_or "" (lookup "interface" c.provider.params); ipam = range }

  has_provider : new_provider ranges c ≡ ok (some own_provider)
  unfolding new_provider new_none new_ipam
  has_provider = rw provider_type (rw parses refl)

  has_peers : read_peers_json packages.decode_peers file ≡ ok peers
  unfolding read_peers_json
  has_peers = by_names names
    where
      by_names :
          {g : PeersFile} {ps : List String}
          → Names packages.decode_peers g ps
          → read_peers_json packages.decode_peers g ≡ ok ps
      by_names no_file = refl
      by_names empty_file = refl
      by_names (decoded {text = String.[]} full read) = absurd (full refl)
      by_names (decoded {text = String.◌∷◌ x text} full read) = read

  has_logger : new_stats_logger packages.connect c.stats ≡ done stats_logger
  unfolding new_stats_logger
  has_logger = by_logger logs
    where
      by_logger :
          {o : Option Hook}
          → Logs packages.connect c.stats o
          → new_stats_logger packages.connect c.stats ≡ done o
      by_logger (nowhere e) = simp e refl
      by_logger (to_logstash e connected) = simp e (rw connected refl)
      by_logger (to_syslog e connected) = simp e (rw connected refl)

  -- The table after `init` and `flush`.
  abbrev flushed_table : kernel.Table → kernel.Table
  flushed_table t = (kernel.flush (kernel.init t).0).0

  has_table : (t : kernel.Table) → new_ipvs network kernel t ≡ (flushed_table t, none)
  unfolding new_ipvs
  has_table t = rw (initialises t) (rw (flushes (kernel.init t).0) refl)

  -- The cluster that the node joins: it may elect itself if the configuration says so and the file names
  -- one peer at most, and it keeps its log on disk unless it runs in development mode.
  abbrev pub own_raft : RaftSetup
  own_raft = record {
    enable_single_node = c.bootstrap && ltb (length peers) 2;
    ip = ip;
    port = port_of "raft" c;
    stores = if c.dev_mode then in_memory else on_disk c.config_path;
  }

  abbrev pub own_serf : SerfSetup
  own_serf = record {
    tags = ("role", "balancer") ∷ ("raft-port", decimal (port_of "raft" c)) ∷ [];
    bind_addr = ip;
    bind_port = port_of "serf" c;
    node_name = c.name;
  }

  setup_raft-done :
      (m : Machine platform) → setup_raft platform packages c file m ≡ done (m, ok own_raft)
  unfolding setup_raft connect_raft open_stores create_raft
  setup_raft-done m = rw (has_peers) (
      rw (has_ip m.host) (
        rw (has_transport) (elim (Bool-cases c.dev_mode) [
          | inl e ↦ rw e (rw (has_raft _) refl)
          | inr e ↦ rw e (rw (has_snapshots) (rw (has_store) (rw (has_raft _) refl)))
        ])))

  setup_serf-done :
      (m : Machine platform) → setup_serf platform packages c m ≡ done (m, ok own_serf)
  unfolding setup_serf
  setup_serf-done m = rw (has_ip m.host) (rw (has_serf own_serf) refl)

  new_engine-done :
      (m : Machine platform)
      → new_engine platform packages c m
        ≡ done (record m { table = flushed_table m.table }, ok stats_logger)
  unfolding new_engine
  new_engine-done m = rw (has_table m.table) (rw (has_logger) refl)

  pub new_balancer-starts :
      (flushable : FlushableInterface platform.netlink (vip_interface c)) (m : Machine platform)
      → (m' : Machine platform) × (new_balancer platform packages c file m
          ≡ done (
            m',
            ok (record {
              provider = some own_provider;
              stats_logger = stats_logger;
              raft = own_raft;
              serf = own_serf;
            }),
          ))
        × (flushable.others m'.host ≡ [])
        × (kernel.list_services m'.table ≡ ok [])
  unfolding new_balancer join_cluster finish_start clean_vips
  new_balancer-starts flushable m =
      let m1 = record m { table = flushed_table m.table } in
      let (h, flushed, left) =
        del_vips-others platform.netlink (vip_interface c) flushable m.host in
      (
        record m1 { host = h },
        rw has_provider (
            rw (new_engine-done m)
              (rw (setup_raft-done m1) (rw (setup_serf-done m1) (rw flushed refl)))),
        left,
        flush_empties (kernel.init m.table).0,
      )
