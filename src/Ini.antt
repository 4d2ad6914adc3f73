-- ===== src/Ini.antt =====
-- src/compat/ini: configuration files in the INI dialect of Python Supervisor, and
-- src/program/envfile.rs: environment files.
pub mod Document
pub mod Parse
pub mod Wildcard
pub mod Values
pub mod Include
pub mod EnvFile
mod Samples
