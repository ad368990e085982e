-- ===== src/Trigger/Daemon/Restart.antt =====
-- pkg/trigger/daemon.go: the restart policy.
use dicode_core.Prelude.{String, ◌≡◌, ◌≢◌, ◌⊎◌, string_eq}
use dicode_core.Trigger.Daemon.{RunStatus, failure}

-- When a daemon is started again: restart "always", which is the default, or any text that is none
-- of the three; "on-failure" after a failure.
abbrev pub MayRestart : String → RunStatus → Type 0
MayRestart restart status = (restart ≢ "never") × ((restart ≢ "on-failure") ⊎ (status ≡ failure))
