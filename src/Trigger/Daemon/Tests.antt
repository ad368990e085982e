-- ===== src/Trigger/Daemon/Tests.antt =====
-- Tests of pkg/trigger/daemon.go: the theorems at concrete engines.
use dicode_core.Prelude.{◌≡◌, refl, true, false, none, some, [], ◌∷◌, string_eq}
use dicode_core.Prelude.Dict.{lookup, insert, delete}
use dicode_core.Trigger.Slots.{
  DaemonSlot, slot_key_eq, new_slots, daemon_key, claim_key, attach, owned, holding, run_id,
  evicted,
}
use dicode_core.Trigger.Crashloop.{note_spawn}
use dicode_core.Trigger.DaemonState.{running, set_state}
use dicode_core.Trigger.Daemon.{
  failure, Spec, Engine, start_daemon, exit_decision, launch_daemon, launch_begin, launch_end,
}
use dicode_core.Trigger.Daemon.Finish.{is_registered}
use dicode_core.Trigger.Daemon.Backoff.{Bounded}

abbrev server : Spec
server = record { id = "s/d"; restart = "on-failure" }

-- A daemon that is registered and not started.
abbrev idle : Engine
idle = record {
  specs = ("s/d", server) ∷ [];
  slots = new_slots;
  states = [];
  crashloops = [];
  backoffs = [];
  shutting_down = false;
  fired = [];
  killed = [];
}

-- The same daemon with a body in flight.
abbrev busy : Engine
busy = record idle {
  slots = record {
    m = (daemon_key "s/d", 0) ∷ [];
    heap = (record { run_id = "r1"; parked = false; evicted = false }) ∷ [];
  };
  states = ("s/d", running) ∷ [];
  fired = ("s/d", "r1") ∷ [];
}

abbrev slot : DaemonSlot
slot = record { k = daemon_key "s/d"; e = 0; run = "r1" }

starts_to_busy : start_daemon 5 "r1" false server idle ≡ busy
unfolding start_daemon launch_daemon launch_begin launch_end claim_key attach owned evicted
    note_spawn set_state lookup insert delete
starts_to_busy = refl

busy_is_held : lookup (daemon_key "s/d") busy.slots.m ≡ some 0
unfolding lookup
busy_is_held = refl

other_holds : holding "s/d" "r0" busy.slots ≡ none
unfolding holding lookup
other_holds = refl

busy_registered : is_registered "s/d" busy ≡ true
unfolding lookup
busy_registered = refl

no_backoffs : Bounded []
unfolding lookup
no_backoffs id b h = absurd (cc)

first_sleep : (exit_decision server failure 3 busy).0 ≡ some 1_000_000_000
unfolding exit_decision lookup
first_sleep = refl

-- The daemon was unregistered while its restart waited.
abbrev removed : Engine
removed = record idle { specs = [] }

removed_is_gone : lookup "s/d" removed.specs ≡ none
unfolding lookup
removed_is_gone = refl
