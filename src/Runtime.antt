-- ===== src/Runtime.antt =====
-- pkg/runtime: what the container runtimes decide before they call their tools.
pub mod ImageGc
pub mod Env
pub mod EnvCache
