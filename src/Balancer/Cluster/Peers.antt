-- ===== src/Balancer/Cluster/Peers.antt =====
-- The peer set of raft after members joined and left.
use fusis.Prelude.{
  ℕ, String, ◌==◌, Bool, true, false, not, ◌&&◌, ◌||◌, Bool-cases, String-cases, List, [], ◌∷◌,
  none, ◌≡◌, ◌≢◌, refl, sym, ap, ◌∙◌, ◌⊎◌, inl, inr, eq_iff, arith, if◌then◌else◌, select,
}
use fusis.Prelude.Text.{concat, decimal}
use fusis.Types.{ok}
use fusis.Diff.Laws.{mentions}
use fusis.Balancer.Cluster.{
  Membership, Member, tag, is_balancer, remote_addr, add_member_to_pool, join_each,
  handle_member_join, peer_addr, handle_balancer_leave,
}

-- What raft documents of its peers: a call that returns no error had its effect; one that returns an
-- error may have had it or not; and a call changes nothing but the address that it is given.
pub record PeerSet (membership : Membership) : Type 0 where
  pub has : String → membership.Peers → Bool
  pub joined :
      (p : String) (ps : membership.Peers)
      → (membership.add_peer p ps).1 ≡ none
      → has p (membership.add_peer p ps).0 ≡ true
  pub join_keeps :
      (p : String) (ps : membership.Peers)
      → has p ps ≡ true
      → has p (membership.add_peer p ps).0 ≡ true
  pub join_alone :
      (p k : String) (ps : membership.Peers) → p ≢ k → has k (membership.add_peer p ps).0 ≡ has k ps
  pub removed :
      (p : String) (ps : membership.Peers)
      → (membership.remove_peer p ps).1 ≡ none
      → has p (membership.remove_peer p ps).0 ≡ false
  pub removal_adds_none :
      (p : String) (ps : membership.Peers)
      → has p ps ≡ false
      → has p (membership.remove_peer p ps).0 ≡ false
  pub remove_alone :
      (p k : String) (ps : membership.Peers)
      → p ≢ k
      → has k (membership.remove_peer p ps).0 ≡ has k ps

module _ (membership : Membership) (peers : PeerSet membership) where
  open membership use {ip_string, tcp_addr_string, atoi, add_peer, remove_peer, Peers}
  open peers use {has, joined, join_keeps, join_alone, removed, removal_adds_none, remove_alone}

  -- The address that a balancer joins with is one of the members'.
  abbrev pub joins : String → List (Member membership) → Bool
  joins k ms = mentions (remote_addr membership) k (select (is_balancer membership) ms)

  -- Raft adds the address without an error, unless it is a peer already.
  abbrev pub Accepts : String → Type 0
  Accepts k = (qs : Peers) → ((add_peer k qs).1 ≡ none) ⊎ (has k qs ≡ true)

  add_same :
      (p : String) (ps : Peers)
      → ((add_peer p ps).1 ≡ none) ⊎ (has p ps ≡ true)
      → has p (add_peer p ps).0 ≡ true
  add_same p ps (inl done) = joined p ps done
  add_same p ps (inr there) = join_keeps p ps there

  add_peer-has :
      (p k : String) (ps : Peers)
      → Accepts k
      → has k (add_peer p ps).0 ≡ (if p == k then true else has k ps)
  add_peer-has p k ps accepts = elim (Bool-cases (p == k)) [
    | inl e ↦
        rw e (ap (λ q. has k (add_peer q ps).0) ((eq_iff p k).0 e) ∙ add_same k ps (accepts ps))
    | inr e ↦ rw e (join_alone p k ps (ground (arith, e, eq_iff p k)))
  ]

  join_each-has :
      (ms : List (Member membership)) (ps : Peers) (k : String)
      → Accepts k
      → has k (join_each membership ms ps) ≡ (joins k ms || has k ps)
  unfolding join_each add_member_to_pool
  join_each-has [] ps k accepts = refl
  join_each-has (m ∷ ms) ps k accepts = elim (Bool-cases (is_balancer membership m)) [
    | inl e ↦ rw e (
        join_each-has ms _ k accepts
        ∙ ground (arith, add_peer-has (remote_addr membership m) k ps accepts))
    | inr e ↦ rw e (join_each-has ms ps k accepts)
  ]

  -- After members joined, if raft adds the address without an error unless it is a peer already: the
  -- address is a peer if it was one before or if the balancer is the leader and a member that is a
  -- balancer joined with it, and else not; agents are never added.
  pub handle_member_join-has :
      (leader : Bool) (ms : List (Member membership)) (ps : Peers) (k : String)
      → Accepts k
      → has k (handle_member_join membership leader ms ps) ≡ ((leader && joins k ms) || has k ps)
  unfolding handle_member_join
  handle_member_join-has true ms ps k accepts = join_each-has ms ps k accepts
  handle_member_join-has false ms ps k accepts = refl

  add_peer-only :
      (p k : String) (ps : Peers)
      → has k (add_peer p ps).0 ≡ (has k ps || (p == k && has k (add_peer p ps).0))
  add_peer-only p k ps = elim (String-cases p k) [
    | inl e ↦ elim (Bool-cases (has k ps)) [
      | inl there ↦ rw there (ap (λ q. has k (add_peer q ps).0) e ∙ join_keeps k ps there)
      | inr missing ↦ rw missing (ground (arith, (eq_iff p k).1 e))
    ]
    | inr e ↦ ground (arith, e, join_alone p k ps e)
  ]

  join_each-only :
      (ms : List (Member membership)) (ps : Peers) (k : String)
      → has k (join_each membership ms ps)
        ≡ (has k ps || (joins k ms && has k (join_each membership ms ps)))
  unfolding join_each add_member_to_pool
  join_each-only [] ps k = ground arith
  join_each-only (m ∷ ms) ps k = elim (Bool-cases (is_balancer membership m)) [
    | inl e ↦ rw e (
        ground (
          arith,
          join_each-only ms (add_peer (remote_addr membership m) ps).0 k,
          add_peer-only (remote_addr membership m) k ps,
        ))
    | inr e ↦ rw e (join_each-only ms ps k)
  ]

  handle_member_join-only :
      (leader : Bool) (ms : List (Member membership)) (ps : Peers) (k : String)
      → has k (handle_member_join membership leader ms ps)
        ≡ (has k ps || (leader && joins k ms && has k (handle_member_join membership leader ms ps)))
  unfolding handle_member_join
  handle_member_join-only true ms ps k = join_each-only ms ps k
  handle_member_join-only false ms ps k = ground arith

  -- The member has an address that is printed with a port as address, colon and port, and its tag is
  -- a port in decimal.
  abbrev pub IsPlain : Member membership → Type 0
  IsPlain m =
      (port : ℕ) × (tag membership "raft-port" m ≡ decimal port)
      × (atoi (decimal port) ≡ ok port)
      × (tcp_addr_string m.addr port ≡ concat (ip_string m.addr ∷ ":" ∷ decimal port ∷ []))

  peer_addr-remote_addr :
      (m : Member membership) → IsPlain m → peer_addr membership m ≡ remote_addr membership m
  unfolding peer_addr remote_addr
  peer_addr-remote_addr m (port, e, read, printed) =
      rw (e, peer_addr, remote_addr) (rw (read, peer_addr) printed)

  remove_same :
      (p : String) (ps : Peers)
      → ((remove_peer p ps).1 ≡ none) ⊎ (has p ps ≡ false)
      → has p (remove_peer p ps).0 ≡ false
  remove_same p ps (inl done) = removed p ps done
  remove_same p ps (inr missing) = removal_adds_none p ps missing

  remove_peer-has :
      (p k : String) (ps : Peers)
      → ((remove_peer p ps).1 ≡ none) ⊎ (has p ps ≡ false)
      → has k (remove_peer p ps).0 ≡ (if p == k then false else has k ps)
  remove_peer-has p k ps done = elim (Bool-cases (p == k)) [
    | inl e ↦
        rw e (ap (λ q. has q (remove_peer p ps).0) (sym ((eq_iff p k).0 e)) ∙ remove_same p ps done)
    | inr e ↦ rw e (remove_alone p k ps (ground (arith, e, eq_iff p k)))
  ]

  -- If a balancer leaves whose address is no IPv6 address and whose port is in decimal, and raft
  -- removes the address that it joined with without an error, unless it is no peer: the leader takes
  -- this address, and no other, from the peers; another balancer takes none.
  pub handle_balancer_leave-has :
      (leader : Bool) (m : Member membership) (ps : Peers) (k : String)
      → IsPlain m
      → ((remove_peer (remote_addr membership m) ps).1 ≡ none)
        ⊎ (has (remote_addr membership m) ps ≡ false)
      → has k (handle_balancer_leave membership leader m ps)
        ≡ (if leader && remote_addr membership m == k then false else has k ps)
  unfolding handle_balancer_leave
  handle_balancer_leave-has true m ps k plain done =
      rw (peer_addr-remote_addr m plain) (remove_peer-has (remote_addr membership m) k ps done)
  handle_balancer_leave-has false m ps k plain done = refl

  remove_peer-only :
      (p k : String) (ps : Peers)
      → has k (remove_peer p ps).0 ≡ (has k ps && (not (p == k) || has k (remove_peer p ps).0))
  remove_peer-only p k ps = elim (String-cases p k) [
    | inl e ↦ elim (Bool-cases (has k ps)) [
      | inl there ↦ rw there (ground (arith, (eq_iff p k).1 e))
      | inr missing ↦
          rw missing (ap (λ q. has k (remove_peer q ps).0) e ∙ removal_adds_none k ps missing)
    ]
    | inr e ↦ ground (arith, e, remove_alone p k ps e)
  ]

  handle_balancer_leave-only :
      (leader : Bool) (m : Member membership) (ps : Peers) (k : String)
      → IsPlain m
      → has k (handle_balancer_leave membership leader m ps) ≡ (
          has k ps
          && (not (leader && remote_addr membership m == k)
              || has k (handle_balancer_leave membership leader m ps)))
  unfolding handle_balancer_leave
  handle_balancer_leave-only true m ps k plain =
      rw (peer_addr-remote_addr m plain) (remove_peer-only (remote_addr membership m) k ps)
  handle_balancer_leave-only false m ps k plain = ground arith

  -- Whatever raft answers, an error too. After members joined, the peers from before are peers, and
  -- another address is one only if the balancer is the leader and a balancer joined with it. After a
  -- balancer left whose address is no IPv6 address and whose port is in decimal, no address is a
  -- peer that was none before, and one that was is no peer only if the balancer is the leader and the
  -- member had joined with it.
  pub peers_only :
      (leader : Bool) (ms : List (Member membership)) (m : Member membership) (ps : Peers)
      (k : String)
      → IsPlain m
      → (has k (handle_member_join membership leader ms ps) ≡ (
          has k ps || (leader && joins k ms && has k (handle_member_join membership leader ms ps))))
        × (has k (handle_balancer_leave membership leader m ps) ≡ (
            has k ps
            && (not (leader && remote_addr membership m == k)
                || has k (handle_balancer_leave membership leader m ps))))
  peers_only leader ms m ps k plain =
      (handle_member_join-only leader ms ps k, handle_balancer_leave-only leader m ps k plain)
