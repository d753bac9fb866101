-- ===== src/Plugin.antt =====
-- cmd/circular: the plugin, its options, its methods and its start. The plugin of glightning, with which they are
-- registered, is a parameter: the record `Registry`.
pub mod Registry
pub mod Options
pub mod Methods
pub mod Start
pub mod Fixture
mod Examples
