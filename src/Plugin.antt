-- ===== src/Plugin.antt =====
-- server: the plugin's configuration, permissions and synchronisation.
pub mod Config
pub mod Permissions
pub mod Sync
pub mod Api
pub mod Command
