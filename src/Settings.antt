-- ===== src/Settings.antt =====
-- internal/config/config.go: what it accepts of a configuration.
pub mod Paths
pub mod Checks
