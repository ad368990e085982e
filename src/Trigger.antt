-- ===== src/Trigger.antt =====
-- pkg/trigger: the engine's guards around starting tasks.
pub mod Slots
pub mod Guards
pub mod Chain
pub mod Replay
pub mod Webhook
pub mod Crashloop
pub mod DaemonState
pub mod Daemon
