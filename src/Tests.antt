-- ===== src/Tests.antt =====
-- A database in memory and a small run of each part, at which the theorems are applied.
pub mod Database
pub mod Pipelines
pub mod Workers
pub mod Serving
pub mod Registry
pub mod Sites
pub mod Sessions
pub mod Limits
pub mod Configs
