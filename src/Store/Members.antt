-- ===== src/Store/Members.antt =====
-- server/store/member_store.go
pub mod Rows
pub mod Save
pub mod Keys
pub mod Add
pub mod Remove
pub mod Relate
pub mod Upsert
pub mod Unique
pub mod Roles
pub mod Queries
pub mod Table
