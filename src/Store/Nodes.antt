-- ===== src/Store/Nodes.antt =====
-- server/store/node_store.go: the statements that read or write org_directory_nodes.
pub mod Rows
pub mod Save
pub mod Move
pub mod Delete
pub mod Queries
pub mod Children
