-- ===== src/Config.antt =====
-- pipeline/pipeline_config.c: the command line's words and lists.
pub mod Names
pub mod Exact
pub mod OutputPath
pub mod Args
pub mod ClassFilter
pub mod Settings
pub mod Tests
