-- ===== src/Balancer/Startup/Clean.antt =====
-- What holds of a balancer that started.
use fusis.Prelude.{
  String, ◌≡◌, refl, sym, ap, ◌∙◌, ltb, Bool, ◌&&◌, Option, List, [], length, arith,
}
use fusis.Types.{Error, Result, ok, err}
use fusis.Config.{BalancerConfig}
use fusis.Engine.Stats.{Ending, done, crash, exit, Hook}
use fusis.Provider.None.{NoneProvider, new_provider}
use fusis.Balancer.{Platform, Machine}
use fusis.Balancer.Leadership.{vip_interface}
use fusis.Balancer.Leadership.Holders.{FlushableInterface, del_vips-others}
use fusis.Balancer.Startup.{
  PeersFile, Packages, RaftSetup, Boot, Booted, continue, reworded, ◌>>=◌, fallible, checked,
  rewording, read_peers_json, port_of, open_stores, raft_setup, create_raft, connect_raft, own_ip,
  finish_start, join_cluster, setup_raft, setup_serf, new_engine, cleaned, clean_vips, new_balancer,
  SerfSetup, wrapped,
}

module _ (platform : Platform) (packages : Packages) where
  continue-done :
      {A B : Type 0} (f : A → Boot platform packages B) (r : Ending (Machine platform × Result A))
      {m' : Machine platform} {b : B}
      → continue platform packages f r ≡ done (m', ok b)
      → (m1 : Machine platform) × (a : A) × (r ≡ done (m1, ok a)) × (f a m1 ≡ done (m', ok b))
  continue-done f crash h = cc
  continue-done f (exit message) h = cc
  continue-done f (done (m, err e)) h = absurd (ground (arith, h))
  continue-done f (done (m, ok a)) h = (m, a, refl, h)

  reworded-done :
      {A : Type 0} (words : Error → Error) (r : Ending (Machine platform × Result A))
      {m' : Machine platform} {a : A}
      → reworded platform packages words r ≡ done (m', ok a)
      → r ≡ done (m', ok a)
  reworded-done words crash h = cc
  reworded-done words (exit message) h = cc
  reworded-done words (done (m, err e)) h = absurd (ground (arith, h))
  reworded-done words (done (m, ok a)) h = h

  -- Whether `setupRaft` lets the node elect itself.
  abbrev pub ElectsItself : BalancerConfig → PeersFile → Bool → Type 0
  ElectsItself c file allowed =
      (peers : List String) × (read_peers_json packages.decode_peers file ≡ ok peers)
      × (allowed ≡ (c.bootstrap && ltb (length peers) 2))

  create_raft-done :
      (setup : RaftSetup) (m : Machine platform) {m' : Machine platform} {made : RaftSetup}
      → create_raft platform packages setup m ≡ done (m', ok made)
      → made ≡ setup
  unfolding create_raft
  create_raft-done setup m h =
      let (_, _, _, h1) =
        continue-done {A = Unit {0}} (λ x m1. done (m1, ok setup))
          (checked platform packages (wrapped "new raft: ") (packages.new_raft setup) m) h in
      ground (arith, h1)

  setup_raft-ElectsItself :
      (c : BalancerConfig) (file : PeersFile) (m : Machine platform) {m' : Machine platform}
      {setup : RaftSetup}
      → setup_raft platform packages c file m ≡ done (m', ok setup)
      → ElectsItself c file setup.enable_single_node
  unfolding setup_raft connect_raft
  setup_raft-ElectsItself c file m h =
      let (m1, peers, read, h1) =
        continue-done
          (λ peers.
            ◌>>=◌ platform packages (own_ip platform packages c)
              (connect_raft platform packages c peers))
          (done (m, read_peers_json packages.decode_peers file)) h in
      let (m2, ip, _, h2) =
        continue-done (connect_raft platform packages c peers) (own_ip platform packages c m1) h1 in
      let (m3, _, _, h3) =
        continue-done
          (λ _. ◌>>=◌ platform packages (open_stores platform packages c) (λ stores.
            create_raft platform packages (raft_setup platform packages c peers ip stores)))
          (checked platform packages (λ e. e) (packages.new_tcp_transport ip (port_of "raft" c)) m2)
          h2 in
      let (m4, stores, _, h4) =
        continue-done
          (λ stores. create_raft platform packages (raft_setup platform packages c peers ip stores))
          (open_stores platform packages c m3) h3 in
      let e = create_raft-done (raft_setup platform packages c peers ip stores) m4 h4 in
      (peers, ground (arith, read), ap (λ (s : RaftSetup). s.enable_single_node) e)

  clean_vips-others :
      (c : BalancerConfig) (flushable : FlushableInterface platform.netlink (vip_interface c))
      (m : Machine platform) {m' : Machine platform} {u : Unit {0}}
      → clean_vips platform packages c m ≡ done (m', ok u)
      → flushable.others m'.host ≡ []
  unfolding clean_vips
  clean_vips-others c flushable m {m'} h =
      let (h1, flushed, left) =
        del_vips-others platform.netlink (vip_interface c) flushable m.host in
      let ended = sym (ap (cleaned platform packages m) flushed) ∙ h in
      let same : h1 ≡ m'.host = ground (arith, ended) in rw (← same) left

  finish_start-clean :
      (provider : Option (NoneProvider platform.ranges)) (stats_logger : Option Hook)
      (raft : RaftSetup) (serf : SerfSetup) (c : BalancerConfig)
      (flushable : FlushableInterface platform.netlink (vip_interface c)) (m : Machine platform)
      {m' : Machine platform} {b : Booted platform packages}
      → finish_start platform packages provider stats_logger raft serf c m ≡ done (m', ok b)
      → (flushable.others m'.host ≡ []) × (b.raft ≡ raft)
  unfolding finish_start
  finish_start-clean provider stats_logger raft serf c flushable m {m'} h =
      let booted : Booted platform packages = record {
        provider = provider;
        stats_logger = stats_logger;
        raft = raft;
        serf = serf;
      } in
      let (m1, _, flushed, h1) =
        continue-done {A = Unit {0}} (λ x m1. done (m1, ok booted))
          (clean_vips platform packages c m) h in
      let same : m1 ≡ m' = ground (arith, h1) in
      (rw (← same) (clean_vips-others c flushable m flushed), ground (arith, h1))

  -- If `NewBalancer` succeeds, on an interface that can be flushed, no address but the interface's own is
  -- left on it, and raft may elect this node by itself only if the configuration says so and the file of
  -- peers could be read and names one peer at most.
  pub new_balancer-clean :
      (c : BalancerConfig) (file : PeersFile)
      (flushable : FlushableInterface platform.netlink (vip_interface c)) (m : Machine platform)
      {m' : Machine platform} {b : Booted platform packages}
      → new_balancer platform packages c file m ≡ done (m', ok b)
      → (flushable.others m'.host ≡ []) × ElectsItself c file b.raft.enable_single_node
  unfolding new_balancer join_cluster
  new_balancer-clean c file flushable m h =
      let (m1, provider, _, h1) =
        continue-done
          (λ provider.
            ◌>>=◌ platform packages (new_engine platform packages c)
              (λ logger. join_cluster platform packages provider logger c file))
          (fallible platform packages (new_provider platform.ranges c) m) h in
      let (m2, logger, _, h2) =
        continue-done (λ logger. join_cluster platform packages provider logger c file)
          (new_engine platform packages c m1) h1 in
      let (m3, raft, made, h3) =
        continue-done
          (λ raft.
            ◌>>=◌ platform packages
              (rewording platform packages (wrapped "error setting up Serf: ")
                (setup_serf platform packages c))
              (λ serf. finish_start platform packages provider logger raft serf c))
          (rewording platform packages (wrapped "error setting up Raft: ")
            (setup_raft platform packages c file) m2)
          h2 in
      let (m4, serf, _, h4) =
        continue-done (λ serf. finish_start platform packages provider logger raft serf c)
          (rewording platform packages (wrapped "error setting up Serf: ")
            (setup_serf platform packages c) m3)
          h3 in
      let (clean, same) = finish_start-clean provider logger raft serf c flushable m4 h4 in
      let elects = setup_raft-ElectsItself c file m2 (
        reworded-done (wrapped "error setting up Raft: ") (setup_raft platform packages c file m2)
          made) in
      (clean, (elects.0, elects.1, ap (λ (r : RaftSetup). r.enable_single_node) same ∙ elects.2))
