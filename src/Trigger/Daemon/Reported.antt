-- ===== src/Trigger/Daemon/Reported.antt =====
-- pkg/trigger/engine.go and daemon.go: what is reported of a daemon after it was unregistered.
use dicode_core.Prelude.{String, string_eq, nat_eq}
use dicode_core.Prelude.Dict.{delete}
use dicode_core.Trigger.Slots.{Slots, slot_key_eq, evict}
use dicode_core.Trigger.Crashloop.{reset}
use dicode_core.Trigger.Daemon.{Engine, kill_run}

abbrev unregistered : String → String → Engine → Engine
unregistered id run e = kill_run run (record e {
  specs = delete id e.specs;
  slots = (evict id e.slots).1;
  crashloops = reset id e.crashloops;
})
