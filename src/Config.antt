-- ===== src/Config.antt =====
-- internal/config/config.go: settings from the environment or from a file of lines KEY=value.
pub mod Settings
pub mod EnvFile
pub mod Environment
