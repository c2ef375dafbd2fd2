-- ===== src/Tests.antt =====
-- Concrete runs: an instance of each theorem that has conditions, and checks by evaluation.
mod Samples
mod Keys
mod State
mod Engine
mod Provider
mod Interface
mod Balancer
mod Api
mod Keyed
mod Exact
mod Served
mod Whole
mod Cluster
mod Leadership
mod Startup
mod Agents
mod Reach
mod Departures
mod Replication
mod Replicas
