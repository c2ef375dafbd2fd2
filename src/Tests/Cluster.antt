-- ===== src/Tests/Cluster.antt =====
-- The membership events on a peer set that is a list of addresses.
use fusis.Prelude.{
  String, ◌==◌, true, false, not, ◌&&◌, ◌||◌, none, some, Bool-cases, inl, inr, ◌≢◌, ◌⊎◌, List, [],
  ◌∷◌, ◌≡◌, refl, arith, eq_iff, if◌then◌else◌, select,
}
use fusis.Prelude.Text.{concat, decimal}
use fusis.Prelude.Text.Dashes.{value}
use fusis.Types.{ok, other}
use fusis.GoMap.{lookup}
use fusis.Diff.Laws.{mentions}
use fusis.Balancer.Cluster.{
  Membership, Member, is_balancer, remote_addr, handle_member_join, handle_balancer_leave,
}
use fusis.Balancer.Cluster.Peers.{
  PeerSet, joins, handle_member_join-has, handle_balancer_leave-has, peers_only,
}

abbrev pub itself : String → String
itself s = s

abbrev pub lan : Membership
lan = record {
  Ip = String;
  ip_string = itself;
  tcp_addr_string = λ a p. concat (a ∷ ":" ∷ decimal p ∷ []);
  atoi = λ s. ok (value 0 s);
  Peers = List String;
  add_peer = λ p ps.
      if mentions itself p ps then (ps, some (other "peer already known")) else (p ∷ ps, none);
  remove_peer = λ p ps.
      if mentions itself p ps
      then (select (λ q. not (q == p)) ps, none)
      else (ps, some (other "peer is unknown"));
}

joined_list :
    (p : String) (ps : List String)
    → (lan.add_peer p ps).1 ≡ none
    → mentions itself p (lan.add_peer p ps).0 ≡ true
joined_list p ps h = ground (arith, h, eq_iff p p)

kept_list :
    (p : String) (ps : List String)
    → mentions itself p ps ≡ true
    → mentions itself p (lan.add_peer p ps).0 ≡ true
kept_list p ps h = ground (arith, h)

alone_list :
    (p k : String) (ps : List String)
    → p ≢ k
    → mentions itself k (lan.add_peer p ps).0 ≡ mentions itself k ps
alone_list p k ps ne = ground (arith, ne, eq_iff p k)

mentions-without :
    (p k : String) (ps : List String)
    → mentions itself k (select (λ q. not (q == p)) ps)
      ≡ (if p == k then false else mentions itself k ps)
mentions-without p k [] = ground arith
mentions-without p k (q ∷ ps) =
    ground (arith, mentions-without p k ps, eq_iff p k, eq_iff q p, eq_iff q k)

removed_list :
    (p : String) (ps : List String)
    → (lan.remove_peer p ps).1 ≡ none
    → mentions itself p (lan.remove_peer p ps).0 ≡ false
removed_list p ps h = ground (arith, h, mentions-without p p ps, eq_iff p p)

listed_peers : PeerSet lan
listed_peers = record {
  has = mentions itself;
  joined = joined_list;
  join_keeps = kept_list;
  join_alone = alone_list;
  removed = removed_list;
  removal_adds_none = λ p ps h. ground (arith, h);
  remove_alone = λ p k ps ne. ground (arith, ne, mentions-without p k ps, eq_iff p k);
}

abbrev pub second : Member lan
second = record {
  name = "b2";
  addr = "10.1.0.2";
  tags = ("role", "balancer") ∷ ("raft-port", "4382") ∷ [];
}

abbrev agent : Member lan
agent = record { name = "a1"; addr = "10.1.0.9"; tags = ("role", "agent") ∷ [] }

accepts :
    (k : String) (qs : List String) → ((lan.add_peer k qs).1 ≡ none) ⊎ (mentions itself k qs ≡ true)
accepts k qs = elim (Bool-cases (mentions itself k qs)) [
  | inl there ↦ inr there
  | inr missing ↦ inl (rw missing refl)
]

handle_member_join-has_example :
    mentions itself "10.1.0.2:4382" (handle_member_join lan true (second ∷ agent ∷ []) [])
    ≡ (joins lan listed_peers "10.1.0.2:4382" (second ∷ agent ∷ []) || false)
unfolding listed_peers
handle_member_join-has_example =
    handle_member_join-has lan listed_peers true (second ∷ agent ∷ []) [] "10.1.0.2:4382"
      (accepts "10.1.0.2:4382")

-- The second balancer is found under its address, and the agent is not.
joined_peers : joins lan listed_peers "10.1.0.2:4382" (second ∷ agent ∷ []) ≡ true
unfolding is_balancer remote_addr lookup concat
joined_peers = refl

handle_balancer_leave-has_example :
    mentions itself "10.1.0.2:4382" (handle_balancer_leave lan true second ("10.1.0.2:4382" ∷ []))
    ≡ (if true && remote_addr lan second == "10.1.0.2:4382"
        then false
        else mentions itself "10.1.0.2:4382" ("10.1.0.2:4382" ∷ []))
unfolding listed_peers lookup decimal remote_addr concat
handle_balancer_leave-has_example =
    handle_balancer_leave-has lan listed_peers true second ("10.1.0.2:4382" ∷ []) "10.1.0.2:4382"
      (4382, refl, refl, refl) (inl refl)

-- Raft refuses a peer that it knows, and the peers stay.
peers_only_example :
    (mentions itself "10.1.0.2:4382"
        (handle_member_join lan true (second ∷ []) ("10.1.0.2:4382" ∷ []))
      ≡ (mentions itself "10.1.0.2:4382" ("10.1.0.2:4382" ∷ [])
          || (true
              && joins lan listed_peers "10.1.0.2:4382" (second ∷ [])
              && mentions itself "10.1.0.2:4382"
                  (handle_member_join lan true (second ∷ []) ("10.1.0.2:4382" ∷ [])))))
    × (mentions itself "10.1.0.2:4382"
          (handle_balancer_leave lan true second ("10.1.0.2:4382" ∷ []))
        ≡ (mentions itself "10.1.0.2:4382" ("10.1.0.2:4382" ∷ [])
            && (not (true && remote_addr lan second == "10.1.0.2:4382")
                || mentions itself "10.1.0.2:4382"
                    (handle_balancer_leave lan true second ("10.1.0.2:4382" ∷ [])))))
unfolding listed_peers lookup decimal
peers_only_example =
    peers_only lan listed_peers true (second ∷ []) second ("10.1.0.2:4382" ∷ []) "10.1.0.2:4382"
      (4382, refl, refl, refl)
