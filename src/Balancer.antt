-- ===== src/Balancer.antt =====
-- fusis/operations.go, and of fusis/balancer.go the hand-over from raft to the local machine.
-- Each method holds the lock of the balancer, so it is one step from a node to the next.
pub mod Raft
pub mod Services
pub mod Deletion
pub mod Destinations
pub mod Reach
pub mod Converges
pub mod Exact
pub mod Replicas
pub mod Cluster
pub mod Startup
pub mod Leave
pub mod Leadership
use fusis.Prelude.{
  ℕ, String, ◌==◌, ◌&&◌, nat_beq, Bool, true, false, Option, none, some, List, [], ◌∷◌,
  if◌then◌else◌,
}
use fusis.Types.{
  Error, service_not_found, destination_not_found, service_already_exists,
  destination_already_exists, crash_error, other, Result, ok, err, Outcome, returned, panicked,
}
use fusis.Types.Service
use fusis.Types.Service.{Service}
use fusis.Types.Destination
use fusis.Types.Destination.{Destination}
use fusis.Ipvs.State
use fusis.Ipvs.State.{FusisState}
use fusis.Ipvs.Structs.{Network}
use fusis.Ipvs.Sync.{Kernel, sync_state}
use fusis.Net.{Netlink}
use fusis.Provider.Ipam.{Ranges}
use fusis.Provider.None.{NoneProvider, sync_vips, allocate_vip, release_vip}
use fusis.Engine
use fusis.Engine.{Command, add_service_op, del_service_op, add_destination_op, del_destination_op}

-- The packages that a balancer stands on.
pub record Platform : Type 1 where
  pub network : Network
  pub kernel : Kernel network
  pub netlink : Netlink
  pub ranges : Ranges

module _ (platform : Platform) where
  open platform use {network, kernel, netlink, ranges}

  -- What `handleStateChange` works on: the interfaces and the kernel's table.
  pub record Machine : Type 0 where
    pub host : netlink.Host
    pub table : kernel.Table

  -- The parts of a `Balancer` that its operations read and write.
  pub record Node : Type 0 where
    pub state : FusisState
    pub provider : NoneProvider ranges
    pub machine : Machine
    pub leader : Bool

  unfoldable pub sync_table : FusisState → Machine → Outcome (Machine × Option Error)
  sync_table s m = elim (sync_state network kernel s m.table) [
    | panicked ↦ panicked
    | returned (t, e) ↦ returned (record m { table = t }, e)
  ]

  -- The error of `SyncVIPs` is dropped. The lock that the follower takes is free here, as for every
  -- command of another node; for a command of this node see `apply_to_raft`.
  unfoldable pub handle_state_change :
      Bool → String → FusisState → Machine → Outcome (Machine × Option Error)
  handle_state_change false iface s m = sync_table s m
  handle_state_change true iface s m = elim (sync_vips netlink iface s m.host) [
    | panicked ↦ panicked
    | returned (h, ignored) ↦ sync_table s (record m { host = h })
  ]

  abbrev pub crashed : Option Error → Option Error
  crashed none = none
  crashed (some e) = some (crash_error e)

  abbrev pub Reply : Type 0
  Reply = Outcome (Node × Option Error)

  abbrev applied_here : Node → Outcome ((FusisState × Machine) × Option Error) → Reply
  applied_here n panicked = panicked
  applied_here n (returned ((s, m), response)) =
      returned (record n { state = s; machine = m }, crashed response)

  -- `ApplyToRaft`. Raft either gives an error and the command is not applied, or commits it, and
  -- then the engine of this node applies it and the future holds its response. The operation holds the
  -- lock meanwhile: on a node that is not the leader when the command is applied, `handleStateChange`
  -- waits for this lock for ever. No call returns then, which `panicked` stands for here.
  unfoldable pub apply_to_raft : Option Error → Command → Node → Reply
  apply_to_raft (some e) c n = returned (n, some e)
  apply_to_raft none c n =
      if n.leader
      then applied_here n
          (Engine.apply (handle_state_change true n.provider.iface) c n.state n.machine)
      else panicked

  unfoldable pub get_services : Node → List Service
  get_services n = State.get_services n.state

  unfoldable pub get_service : String → Node → Result Service
  get_service name n = State.get_service name n.state

  unfoldable pub get_destination : String → Node → Result Destination
  get_destination name n = State.get_destination name n.state

  -- What a caller of `AddService` sees: the node, the service that the pointer holds afterwards,
  -- and the error.
  abbrev pub Added : Type 0
  Added = Outcome (Node × Service × Option Error)

  -- After raft: a failure gives the address back, and `ReleaseVIP` has no error of its own.
  unfoldable pub released : Service → Reply → Added
  released svc panicked = panicked
  released svc (returned (n, none)) = returned (n, svc, none)
  released svc (returned (n, some e)) =
      let (p, failure) = release_vip ranges svc n.provider in
      returned (record n { provider = p }, svc, elim failure [ none ↦ some e | some e' ↦ some e' ])

  unfoldable pub with_vip :
      Option Error → Service → Node → Option (NoneProvider ranges × Result Service) → Option Added
  unfolding released
  with_vip verdict svc n none = none
  with_vip verdict svc n (some (p, err e)) =
      some (returned (record n { provider = p }, svc, some e))
  with_vip verdict svc n (some (p, ok svc')) = some (
      released svc' (
        apply_to_raft verdict
          (record { op = add_service_op; service = some svc'; destination = none })
          (record n { provider = p })))

  unfoldable pub add_if_new : ℕ → Option Error → Service → Node → Result Service → Option Added
  unfolding with_vip
  add_if_new fuel verdict svc n (ok found) = some (returned (n, svc, some service_already_exists))
  add_if_new fuel verdict svc n (err service_not_found) =
      with_vip verdict svc n (allocate_vip ranges fuel svc n.state n.provider)
  add_if_new fuel verdict svc n (err e) = some (returned (n, svc, some e))

  -- `AddService`, on fuel for the loop of `Allocate`.
  unfoldable pub add_service : ℕ → Option Error → Service → Node → Option Added
  unfolding add_if_new
  add_service fuel verdict svc n =
      add_if_new fuel verdict svc n (State.get_service (Service.get_id svc) n.state)

  unfoldable pub delete_found : Option Error → Node → Result Service → Reply
  delete_found verdict n (err e) = returned (n, some e)
  delete_found verdict n (ok svc) =
      apply_to_raft verdict (record { op = del_service_op; service = some svc; destination = none })
        n

  unfoldable pub delete_service : Option Error → String → Node → Reply
  unfolding delete_found
  delete_service verdict name n = delete_found verdict n (State.get_service name n.state)

  -- The loop over `stateSvc.Destinations`.
  unfoldable pub has_address : Destination → List Destination → Bool
  has_address dst [] = false
  has_address dst (d ∷ ds) =
      let rest = has_address dst ds in
      if d.host == dst.host && nat_beq d.port dst.port then true else rest

  unfoldable pub add_if_free : Option Error → Service → Destination → Node → Service → Reply
  add_if_free verdict svc dst n state_svc =
      if has_address dst state_svc.destinations
      then returned (n, some destination_already_exists)
      else apply_to_raft verdict
          (record { op = add_destination_op; service = some svc; destination = some dst }) n

  unfoldable pub add_if_unnamed :
      Option Error → Service → Destination → Node → Service → Result Destination → Reply
  unfolding add_if_free
  add_if_unnamed verdict svc dst n state_svc (ok found) =
      returned (n, some destination_already_exists)
  add_if_unnamed verdict svc dst n state_svc (err destination_not_found) =
      add_if_free verdict svc dst n state_svc
  add_if_unnamed verdict svc dst n state_svc (err e) = returned (n, some e)

  unfoldable pub add_to_service :
      Option Error → Service → Destination → Node → Result Service → Reply
  unfolding add_if_unnamed
  add_to_service verdict svc dst n (err e) = returned (n, some e)
  add_to_service verdict svc dst n (ok state_svc) =
      add_if_unnamed verdict svc dst n state_svc
        (State.get_destination (Destination.get_id dst) n.state)

  unfoldable pub add_destination : Option Error → Service → Destination → Node → Reply
  unfolding add_to_service
  add_destination verdict svc dst n =
      add_to_service verdict svc dst n (State.get_service (Service.get_id svc) n.state)

  unfoldable pub delete_known :
      Option Error → Destination → Node → Service → Result Destination → Reply
  delete_known verdict dst n svc (err e) = returned (n, some e)
  delete_known verdict dst n svc (ok found) =
      apply_to_raft verdict
        (record { op = del_destination_op; service = some svc; destination = some dst }) n

  unfoldable pub delete_from_service : Option Error → Destination → Node → Result Service → Reply
  unfolding delete_known
  delete_from_service verdict dst n (err e) = returned (n, some e)
  delete_from_service verdict dst n (ok svc) =
      delete_known verdict dst n svc (State.get_destination (Destination.get_id dst) n.state)

  unfoldable pub delete_destination : Option Error → Destination → Node → Reply
  unfolding delete_from_service
  delete_destination verdict dst n =
      delete_from_service verdict dst n (State.get_service dst.service_id n.state)
