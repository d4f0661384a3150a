-- ===== src/Bsl.antt =====
-- internal/controller/bsl.go: the backup storage locations of the DataProtectionApplication.
pub mod Aws
pub mod Secrets
pub mod Validate
pub mod Sound
pub mod Counting
pub mod Valid
pub mod Labels
pub mod Labelled
pub mod Patch
pub mod Reconcile
pub mod PatchOnce
pub mod Prune
