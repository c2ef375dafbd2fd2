-- ===== src/Balancer/Startup.antt =====
-- fusis/balancer.go: how a balancer starts. `Boot` is a step on the machine that gives a result, and
-- may crash or end the process.
pub mod Clean
pub mod Starts
use fusis.Prelude.{
  ℕ, String, ltb, Bool, true, false, ◌&&◌, Option, none, some, List, [], ◌∷◌, length, if◌then◌else◌,
}
use fusis.Prelude.Text.{concat, decimal}
use fusis.GoMap.{GoMap, lookup}
use fusis.Types.{Error, error_text, other, Result, ok, err, Outcome, returned, panicked}
use fusis.Config.{BalancerConfig, balancer_ip}
use fusis.Ipvs.State.{get_or}
use fusis.Ipvs.Sync.{new_ipvs}
use fusis.Net.{del_vips}
use fusis.Provider.None.{NoneProvider, new_provider}
use fusis.Engine.Stats.{Ending, done, crash, exit, Hook, new_stats_logger}
use fusis.Config
use fusis.Balancer.{Platform, Machine}
use fusis.Balancer.Leadership.{vip_interface}

-- The file of the known peers.
pub data PeersFile : Type 0 where
  missing : PeersFile
  unreadable : Error → PeersFile
  contents : String → PeersFile

-- Where raft keeps its log and its snapshots.
pub data Stores : Type 0 where
  in_memory : Stores
  on_disk : String → Stores

-- What `setupRaft` decides and hands to `raft.NewRaft`.
pub record RaftSetup : Type 0 where
  pub enable_single_node : Bool
  pub ip : String
  pub port : ℕ
  pub stores : Stores

-- What `setupSerf` hands to `serf.Create`.
pub record SerfSetup : Type 0 where
  pub tags : GoMap String
  pub bind_addr : String
  pub bind_port : ℕ
  pub node_name : String

-- The constructors of the packages that a balancer starts, each with the error it gives.
pub record Packages : Type 0 where
  pub decode_peers : String → Result (List String)
  pub new_tcp_transport : String → ℕ → Option Error
  pub new_file_snapshot_store : String → Option Error
  pub new_bolt_store : String → Option Error
  pub new_raft : RaftSetup → Option Error
  pub serf_create : SerfSetup → Option Error
  pub connect : Hook → Config.Stats → Option Error

unfoldable pub read_peers_json : (String → Result (List String)) → PeersFile → Result (List String)
read_peers_json decode missing = ok []
read_peers_json decode (unreadable e) = err e
read_peers_json decode (contents String.[]) = ok []
read_peers_json decode (contents (String.◌∷◌ c s)) = decode (String.◌∷◌ c s)

-- `b.config.Ports[name]`
abbrev pub port_of : String → BalancerConfig → ℕ
port_of name c = get_or 0 (lookup name c.ports)

abbrev pub wrapped : String → Error → Error
wrapped what e = other (concat (what ∷ error_text e ∷ []))

module _ (platform : Platform) (packages : Packages) where
  open platform use {network, kernel, netlink, ranges}
  open packages use {
    decode_peers, new_tcp_transport, new_file_snapshot_store, new_bolt_store, new_raft, serf_create,
    connect,
  }

  abbrev pub Boot : Type 0 → Type 0
  Boot A = Machine platform → Ending (Machine platform × Result A)

  abbrev pub continue :
      {A B : Type 0}
      → (A → Boot B)
      → Ending (Machine platform × Result A)
      → Ending (Machine platform × Result B)
  continue f crash = crash
  continue f (exit message) = exit message
  continue f (done (m, err e)) = done (m, err e)
  continue f (done (m, ok a)) = f a m

  infixl 5 ◌>>=◌ ◌>>◌
  abbrev pub ◌>>=◌ : {A B : Type 0} → Boot A → (A → Boot B) → Boot B
  ◌>>=◌ step f m = continue f (step m)

  abbrev pub ◌>>◌ : {B : Type 0} → Boot (Unit {0}) → Boot B → Boot B
  step >> next = step >>= λ _. next

  abbrev pub fallible : {A : Type 0} → Result A → Boot A
  fallible r m = done (m, r)

  -- A call that gives only an error, which is handed on in new words.
  abbrev pub checked : (Error → Error) → Option Error → Boot (Unit {0})
  checked words none m = done (m, ok tt)
  checked words (some e) m = done (m, err (words e))

  abbrev pub panicking : {A : Type 0} → Outcome (Result A) → Boot A
  panicking panicked m = crash
  panicking (returned r) m = done (m, r)

  abbrev pub ending : {A : Type 0} → Ending A → Boot A
  ending crash m = crash
  ending (exit message) m = exit message
  ending (done a) m = done (m, ok a)

  abbrev pub reworded :
      {A : Type 0}
      → (Error → Error)
      → Ending (Machine platform × Result A)
      → Ending (Machine platform × Result A)
  reworded words crash = crash
  reworded words (exit message) = exit message
  reworded words (done (m, err e)) = done (m, err (words e))
  reworded words (done (m, ok a)) = done (m, ok a)

  abbrev pub rewording : {A : Type 0} → (Error → Error) → Boot A → Boot A
  rewording words step m = reworded words (step m)

  abbrev pub own_ip : BalancerConfig → Boot String
  own_ip c m = panicking (balancer_ip netlink c m.host) m

  -- In development mode nothing is kept on disk.
  unfoldable pub open_stores : BalancerConfig → Boot Stores
  open_stores c = if c.dev_mode then fallible (ok in_memory) else (do
    checked (wrapped "file snapshot store: ") (new_file_snapshot_store c.config_path)
    checked (wrapped "new bolt store: ") (new_bolt_store c.config_path)
    fallible (ok (on_disk c.config_path)))

  -- A node may elect itself only if it is told to and knows one peer at most.
  abbrev pub raft_setup : BalancerConfig → List String → String → Stores → RaftSetup
  raft_setup c peers ip stores = record {
    enable_single_node = c.bootstrap && ltb (length peers) 2;
    ip = ip;
    port = port_of "raft" c;
    stores = stores;
  }

  unfoldable pub create_raft : RaftSetup → Boot RaftSetup
  create_raft setup = do checked (wrapped "new raft: ") (new_raft setup); fallible (ok setup)

  unfoldable pub connect_raft : BalancerConfig → List String → String → Boot RaftSetup
  connect_raft c peers ip = do
    checked (λ e. e) (new_tcp_transport ip (port_of "raft" c))
    stores ← open_stores c
    create_raft (raft_setup c peers ip stores)

  -- `setupRaft`
  unfoldable pub setup_raft : BalancerConfig → PeersFile → Boot RaftSetup
  setup_raft c file = do
    peers ← fallible (read_peers_json decode_peers file)
    ip ← own_ip c
    connect_raft c peers ip

  unfoldable pub setup_serf : BalancerConfig → Boot SerfSetup
  setup_serf c = do
    ip ← own_ip c
    let setup : SerfSetup = record {
      tags = ("role", "balancer") ∷ ("raft-port", decimal (port_of "raft" c)) ∷ [];
      bind_addr = ip;
      bind_port = port_of "serf" c;
      node_name = c.name;
    }
    checked (λ e. e) (serf_create setup)
    fallible (ok setup)

  -- `engine.New`
  unfoldable pub new_engine : BalancerConfig → Boot (Option Hook)
  new_engine c = do
    (λ m.
        let (t, e) = new_ipvs network kernel m.table in checked (λ e. e) e (record m { table = t }))
    ending (new_stats_logger connect c.stats)

  abbrev pub cleaned :
      Machine platform
      → Outcome (netlink.Host × Option Error)
      → Ending (Machine platform × Result (Unit {0}))
  cleaned m panicked = crash
  cleaned m (returned (h, none)) = done (record m { host = h }, ok tt)
  cleaned m (returned (h, some e)) =
      done (record m { host = h }, err (wrapped "error cleaning up network vips: " e))

  unfoldable pub clean_vips : BalancerConfig → Boot (Unit {0})
  clean_vips c m = cleaned m (del_vips netlink (vip_interface c) m.host)

  -- The parts of a balancer that runs.
  pub record Booted : Type 0 where
    pub provider : Option (NoneProvider ranges)
    pub stats_logger : Option Hook
    pub raft : RaftSetup
    pub serf : SerfSetup

  unfoldable pub finish_start :
      Option (NoneProvider ranges)
      → Option Hook
      → RaftSetup
      → SerfSetup
      → BalancerConfig
      → Boot Booted
  finish_start provider stats_logger raft serf c = do
    clean_vips c
    fallible
        (ok (record { provider = provider; stats_logger = stats_logger; raft = raft; serf = serf }))

  unfoldable pub join_cluster :
      Option (NoneProvider ranges) → Option Hook → BalancerConfig → PeersFile → Boot Booted
  join_cluster provider stats_logger c file = do
    raft ← rewording (wrapped "error setting up Raft: ") (setup_raft c file)
    serf ← rewording (wrapped "error setting up Serf: ") (setup_serf c)
    finish_start provider stats_logger raft serf c

  -- `NewBalancer`
  unfoldable pub new_balancer : BalancerConfig → PeersFile → Boot Booted
  new_balancer c file = do
    provider ← fallible (new_provider ranges c)
    stats_logger ← new_engine c
    join_cluster provider stats_logger c file
