-- ===== src/Validator.antt =====
-- internal/controller/validator.go: the checks of the whole DataProtectionApplication.
pub mod Credentials
pub mod Plugins
pub mod Resources
pub mod NodeAgent
pub mod NonAdmin
pub mod Enforced
pub mod DefaultBsl
pub mod Cr
pub mod Periods
pub mod Panic
pub mod PluginSound
pub mod Sound
