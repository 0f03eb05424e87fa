-- ===== src/Plugin/Api.antt =====
-- server: the HTTP handlers behind the router, and the tree that they show.
pub mod Http
pub mod Nodes
pub mod Members
pub mod Trees
pub mod Serve
pub mod Search
pub mod Sync
