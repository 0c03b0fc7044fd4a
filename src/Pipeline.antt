-- ===== src/Pipeline.antt =====
-- internal/worker/pipeline_task.go: the task that makes the variants of one image.
pub mod World
pub mod Keeps
pub mod Passive
pub mod Rules
pub mod Decide
pub mod Track
pub mod Generate
pub mod Run
pub mod Execute
pub mod Resources
pub mod Ownership
