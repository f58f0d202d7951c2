-- ===== src/Node.antt =====
-- The node (node/src): its genesis configurations, the steps of its start, and its command line.
pub mod Strings
pub mod ChainSpec
pub mod Names
pub mod Endowment
pub mod Steps
pub mod Service
pub mod Command
pub mod Benchmarking
pub mod Rpc
pub mod Samples
