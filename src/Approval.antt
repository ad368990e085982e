-- ===== src/Approval.antt =====
-- pkg/approval: the trust-on-change gate that decides which version of a task may run.
mod Samples
pub mod Lock
pub mod Gate
pub mod Token
