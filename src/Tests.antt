-- ===== src/Tests.antt =====
-- Runs of the model, and the theorems applied to them.
pub mod World
pub mod Trees
pub mod Relations
pub mod Syncs
pub mod Api
pub mod Queries
