-- ===== src/Vsl.antt =====
-- internal/controller/vsl.go: the volume snapshot locations of the DataProtectionApplication.
pub mod Validate
pub mod Sound
pub mod Labels
pub mod Reconcile
