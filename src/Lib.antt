-- ===== src/Lib.antt =====
-- Fusis, a layer 4 load balancer: a model of its Go code and proofs about it.
--
-- A cluster of balancers replicates a set of services and their destinations through raft. The
-- HTTP API calls a balancer (fusis/operations.go), which checks the request, takes a virtual
-- address from its provider (provider/ipam.go, provider/none.go) and commits a command to raft.
-- Each balancer's engine (engine/engine.go) applies the committed commands to its state
-- (ipvs/state.go) and then brings the machine in line: the leader puts the virtual addresses on
-- its interface (provider/none.go, net/net.go), and every balancer makes the kernel's IPVS table
-- hold the services (ipvs/ipvs.go, ipvs/structs.go).
--
-- Types models api/types/types.go; Ipvs.State, Ipvs.Structs and Ipvs.Sync the package ipvs; Diff
-- the comparison of old and new items that SyncState, diffDestinations and SyncVIPs share;
-- Engine the commands and snapshots of the package engine, Engine.Replication the log as a
-- whole, against an abstract registry, and Engine.Stats its statistics; Net the package net;
-- Config the package config; Provider the package provider. Balancer models fusis/operations.go
-- with handleStateChange of fusis/balancer.go, Balancer.Reach any sequence of these operations,
-- its own and replicated ones, and what the machine then serves, Balancer.Replicas several
-- balancers that apply one log, and the other children the rest of fusis/balancer.go: Startup
-- NewBalancer, Leadership the changes of the leader, Cluster the membership events, and Leave
-- the leaving and the shutdown. Agent models fusis/agent.go, and Command what the commands of
-- command/ do. Of the package api, Api models the handlers of api/handlers.go over the interface
-- Balancer of api/api.go, Api.Routes its routes, Api.Client api/client.go, and Api.Fake the test
-- server of api/testing/server.go. GoMap models Go's maps, and Prelude holds what the modules
-- share. A name of the code in snake case is the model's function: SyncVIPs is sync_vips. The
-- children of a module prove its properties, and Tests holds concrete runs.
--
-- Conventions. A `(value, error)` pair is a Result; a method with a single error gives Option
-- Error. State is passed on explicitly, a nil dereference or an index out of range is the
-- outcome `panicked`, and a test for a missing map key gives the zero value, as in Go. A map is
-- a list of entries, and the order of the list stands for the order in which `range` visits it;
-- no theorem fixes that order. Strings are texts of Unicode characters, on which encoding/json
-- is lossless, so a command stands for its log entry. Ports and counters are natural numbers:
-- the program stores and prints them and never computes with them.
--
-- Packages that the program calls are parameters: `Netlink` (vishvananda/netlink), `Kernel` and
-- `Network` (google/seesaw/ipvs, and the parsing of addresses by Go's net), `Membership` (the
-- peers of hashicorp/raft, and what net and strconv print and read), `Ranges` (mikioh/ipaddr),
-- `Packages` (the constructors that NewBalancer calls, of raft, serf, the stores and the hooks
-- of the logger), `Surroundings` (the clock and the peer store that Leave reads), and the
-- verdict of raft on a command. What a theorem needs of them is a record of named hypotheses,
-- such as `WorkingInterface` and `FlushableInterface`, with an instance in Tests. Where
-- log.Fatal ends the process, the result is an `Ending`, and the start of a balancer is a chain
-- of such steps (`Boot`). Each operation of a balancer holds its lock and is one step; where a
-- node ceases to be the leader between the commit of its own command and the call of
-- handleStateChange, the program waits for ever for this lock, and the operation does not return
-- in the model either (it is `panicked`, see apply_to_raft).
--
-- A handler of the API is the list of the calls that it makes on the gin context (`Write`), and
-- `Response` is what the client receives of them. The reading of a request and its validation
-- are arguments, and a response holds its body as a value, since the JSON of these records is
-- lossless.
--
-- Two loops have no structural bound and take fuel. The search of `Allocate` needs more fuel
-- than addresses are left in the range. The wait of `Leave` needs 101 rounds: each sleeps 50 of
-- the 5000 milliseconds of grace, and one more finds the time up.
--
-- Not modelled: logging, but for the entries of the statistics; the reading of flags and files
-- by cobra and viper; the insides of raft and serf, and what their goroutines do while
-- NewBalancer still runs; calls that are handed on unchanged (JoinPool, Join, IsLeader,
-- GetLeader); SetIpForwarding, a single write of a file; and the commented-out Cloudstack
-- provider.
pub mod Agent
pub mod Api
pub mod Balancer
pub mod Command
pub mod Config
pub mod Diff
pub mod Engine
pub mod GoMap
pub mod Ipvs
pub mod Net
pub mod Prelude
pub mod Provider
pub mod Tests
pub mod Types
