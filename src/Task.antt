-- ===== src/Task.antt =====
-- pkg/task: what a task's file declares.
pub mod InputRef
pub mod Params
pub mod Pipeline
