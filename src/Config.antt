-- ===== src/Config.antt =====
-- src/config/: what a reload of the configuration changes.
pub mod Diff
mod Samples
