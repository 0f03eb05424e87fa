-- ===== src/Store.antt =====
-- server/store: the database, and one module for each of the store's files.
pub mod Db
pub mod Paging
pub mod Nodes
pub mod Tree
pub mod Members
pub mod Mappings
pub mod Logs
pub mod Frame
pub mod Failed
pub mod Stopped
pub mod Schema
