-- ===== src/Compression.antt =====
-- pkg/simulator/clustercompression: which nodes can be taken out of the cluster.
pub mod Filter
pub mod Select
pub mod Cluster
pub mod Keys
pub mod Rollback
pub mod Taints
pub mod Progress
pub mod Binding
pub mod Drain
pub mod Simulator
pub mod Events
pub mod Fuel
pub mod Labels
pub mod Ends
pub mod Executor
pub mod Live
pub mod Runs
pub mod Once
pub mod Effects
pub mod Deletion
pub mod Report
pub mod Samples
mod Tests
