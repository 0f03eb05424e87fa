-- ===== src/Store/Tree.antt =====
-- The well-formedness of the node table that the materialised paths of node_store.go rely on, and
-- what each operation does to it.
pub mod Invariant
pub mod Create
pub mod Delete
pub mod Cascade
pub mod Reparent
pub mod Relocate
pub mod Moved
pub mod Move
pub mod Upsert
pub mod Below
