-- ===== src/Plugin.antt =====
-- internal/plugin: the state and the life of a plugin, exemptions, and the plugin manager.
pub mod State
pub mod Lifecycle
pub mod Base
pub mod Loading
pub mod Cycle
pub mod Execute
pub mod Balance
pub mod Exemption
pub mod Exempted
pub mod Manager
pub mod Management
pub mod Managed
pub mod Configured
pub mod Removed
pub mod Registry
pub mod UserConfig
pub mod UserUpdate
pub mod UserSaved
pub mod OwnConfig
pub mod OwnSaved
