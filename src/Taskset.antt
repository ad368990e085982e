-- ===== src/Taskset.antt =====
-- pkg/taskset: how layers of overrides change a task.
pub mod Override
pub mod Merge
pub mod Layers
mod Tests
