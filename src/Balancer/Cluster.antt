-- ===== src/Balancer/Cluster.antt =====
-- The membership events of fusis/balancer.go: what a balancer does when serf says that members of the
-- cluster joined or left.
pub mod Peers
pub mod Agents
pub mod Departures
use fusis.Prelude.{
  ℕ, String, ◌==◌, Bool, true, false, Option, none, some, List, [], ◌∷◌, if◌then◌else◌,
}
use fusis.Prelude.Text.{concat}
use fusis.GoMap.{GoMap, lookup}
use fusis.Types.{Error, Result, ok, err, Outcome, returned, panicked}
use fusis.Types.Destination.{Destination}
use fusis.Balancer.{Platform, Node, get_destination, delete_destination}

-- What `net`, `strconv` and `raft` provide: the texts of an address alone and with a port,
-- `strconv.Atoi`, and the peer set of raft, each change with the error of its future.
pub record Membership : Type 1 where
  pub Ip : Type 0
  pub ip_string : Ip → String
  pub tcp_addr_string : Ip → ℕ → String
  pub atoi : String → Result ℕ
  pub Peers : Type 0
  pub add_peer : String → Peers → Peers × Option Error
  pub remove_peer : String → Peers → Peers × Option Error

module _ (membership : Membership) where
  open membership use {Ip, ip_string, tcp_addr_string, atoi, Peers, add_peer, remove_peer}

  -- `serf.Member`, of which the program reads these fields.
  pub record Member : Type 0 where
    pub name : String
    pub addr : Ip
    pub tags : GoMap String

  -- `m.Tags[key]`, "" where the key is missing.
  abbrev pub or_empty : Option String → String
  or_empty none = ""
  or_empty (some s) = s

  abbrev pub tag : String → Member → String
  tag key m = or_empty (lookup key m.tags)

  unfoldable pub is_balancer : Member → Bool
  is_balancer m = tag "role" m == "balancer"

  -- `fmt.Sprintf("%s:%v", m.Addr.String(), m.Tags["raft-port"])`
  unfoldable pub remote_addr : Member → String
  remote_addr m = concat (ip_string m.addr ∷ ":" ∷ tag "raft-port" m ∷ [])

  -- An error is logged.
  unfoldable pub add_member_to_pool : Member → Peers → Peers
  add_member_to_pool m ps = (add_peer (remote_addr m) ps).0

  unfoldable pub join_each : List Member → Peers → Peers
  join_each [] ps = ps
  join_each (m ∷ ms) ps = join_each ms (if is_balancer m then add_member_to_pool m ps else ps)

  unfoldable pub handle_member_join : Bool → List Member → Peers → Peers
  unfolding join_each
  handle_member_join leader ms ps = if leader then join_each ms ps else ps

  -- A port that cannot be read is logged, and 0 is used.
  abbrev pub port_or_zero : Result ℕ → ℕ
  port_or_zero (ok n) = n
  port_or_zero (err e) = 0

  unfoldable pub peer_addr : Member → String
  peer_addr m = tcp_addr_string m.addr (port_or_zero (atoi (tag "raft-port" m)))

  unfoldable pub handle_balancer_leave : Bool → Member → Peers → Peers
  handle_balancer_leave leader m ps = if leader then (remove_peer (peer_addr m) ps).0 else ps

  module _ (platform : Platform) where
    abbrev pub after_delete : Outcome (Node platform × Option Error) → Outcome (Node platform)
    after_delete panicked = panicked
    after_delete (returned (n, e)) = returned n

    abbrev pub delete_agent :
        Option Error → Result Destination → Node platform → Outcome (Node platform)
    delete_agent verdict (err e) n = returned n
    delete_agent verdict (ok dst) n = after_delete (delete_destination platform verdict dst n)

    -- The destination of an agent has the name of its member. `verdict` is the answer of raft.
    unfoldable pub handle_agent_leave :
        Option Error → Member → Node platform → Outcome (Node platform)
    handle_agent_leave verdict m n = delete_agent verdict (get_destination platform m.name n) n

    abbrev pub with_peers : Peers → Outcome (Node platform) → Outcome (Peers × Node platform)
    with_peers ps panicked = panicked
    with_peers ps (returned n) = returned (ps, n)

    abbrev pub leave_one :
        (Member → Option Error) → Member → Peers → Node platform → Outcome (Peers × Node platform)
    leave_one verdicts m ps n =
        if is_balancer m
        then returned (handle_balancer_leave n.leader m ps, n)
        else with_peers ps (handle_agent_leave (verdicts m) m n)

    abbrev pub after_one :
        (Peers → Node platform → Outcome (Peers × Node platform))
        → Outcome (Peers × Node platform)
        → Outcome (Peers × Node platform)
    after_one rest panicked = panicked
    after_one rest (returned (ps, n)) = rest ps n

    unfoldable pub handle_member_leave :
        (Member → Option Error)
        → List Member
        → Peers
        → Node platform
        → Outcome (Peers × Node platform)
    handle_member_leave verdicts [] ps n = returned (ps, n)
    handle_member_leave verdicts (m ∷ ms) ps n =
        after_one (handle_member_leave verdicts ms) (leave_one verdicts m ps n)

    -- The events of serf; a member that failed is handled as one that left.
    pub data MemberEvent : Type 0 where
      members_joined members_failed members_left : List Member → MemberEvent
      unhandled : MemberEvent

    abbrev pub handle_member_event :
        (Member → Option Error)
        → MemberEvent
        → Peers
        → Node platform
        → Outcome (Peers × Node platform)
    handle_member_event verdicts (members_joined ms) ps n =
        returned (handle_member_join n.leader ms ps, n)
    handle_member_event verdicts (members_failed ms) ps n = handle_member_leave verdicts ms ps n
    handle_member_event verdicts (members_left ms) ps n = handle_member_leave verdicts ms ps n
    handle_member_event verdicts unhandled ps n = returned (ps, n)

    -- `handleEvents`, over what the channel delivers.
    unfoldable pub handle_member_events :
        (Member → Option Error)
        → List MemberEvent
        → Peers
        → Node platform
        → Outcome (Peers × Node platform)
    handle_member_events verdicts [] ps n = returned (ps, n)
    handle_member_events verdicts (e ∷ es) ps n =
        after_one (handle_member_events verdicts es) (handle_member_event verdicts e ps n)
