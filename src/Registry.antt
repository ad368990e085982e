-- ===== src/Registry.antt =====
-- pkg/registry: how the tasks of all sources become the registered ones, and the table of runs.
pub mod Reconciler
pub mod Runs
