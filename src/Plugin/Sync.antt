-- ===== src/Plugin/Sync.antt =====
-- server/api_sync.go: the synchronisation of an external source.
pub mod State
pub mod Order
pub mod Nodes
pub mod Users
pub mod Members
pub mod Execute
pub mod Tree
pub mod Stale
pub mod Counts
pub mod Dto
