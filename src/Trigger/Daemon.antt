-- ===== src/Trigger/Daemon.antt =====
-- pkg/trigger/daemon.go: how a daemon is started, what follows its exit, and when it starts again.
-- The engine's other parts answer as arguments: the new run's id, whether `fireAsync` failed, the
-- clock. A backoff sleep cuts `restartDaemonAfterExit` in two, since anything may happen meanwhile.
pub mod Finish
pub mod Restart
pub mod Backoff
pub mod Slot
pub mod Exits
pub mod Resurrection
pub mod Reported
mod Tests
use dicode_core.Prelude.{
  ℕ, ◌+◌, ◌*◌, String, Bool, true, false, not, ◌||◌, Option, none, some, List, [], ◌∷◌, ltb, leb,
  ◌==◌, if◌then◌else◌, string_eq,
}
use dicode_core.Prelude.Dict.{lookup, insert, delete}
use dicode_core.Trigger.Slots.{
  Slots, DaemonSlot, slot_key_eq, claim, attach, release, evicted, evict, holding, adopt, park,
  release_run,
}
use dicode_core.Trigger.Crashloop.{
  second, daemon_stable_threshold, Tracker, note_spawn, note_exit, clear_spawn, reset,
}
use dicode_core.Trigger.DaemonState.{
  DaemonStateMap, stopped, running, failed_after_preflight, crashed, suspended, set_state,
}

abbrev pub daemon_backoff_init : ℕ
daemon_backoff_init = 1 * second

abbrev pub daemon_backoff_max : ℕ
daemon_backoff_max = 30 * second

pub data RunStatus : Type 0 where
  success failure cancelled run_suspended other_status : RunStatus

-- `restart` is the text of trigger.restart.
pub record Spec : Type 0 where
  pub id : String
  pub restart : String

-- The part of the engine that daemons use; `fired` has the runs that were started, `killed` those
-- that KillRun was called for, newest first.
pub record Engine : Type 0 where
  pub specs : List (String × Spec)
  pub slots : Slots
  pub states : DaemonStateMap
  pub crashloops : Tracker
  pub backoffs : List (String × ℕ)
  pub shutting_down : Bool
  pub fired : List (String × String)
  pub killed : List String

abbrev pub kill_run : String → Engine → Engine
kill_run run e = record e { killed = run ∷ e.killed }

-- `launchDaemon` up to the call of `fireAsync`; `false` returns there.
unfoldable pub launch_begin : ℕ → String → Spec → DaemonSlot → Engine → Bool × Engine
launch_begin now run spec slot e =
    let spawned = note_spawn now spec.id e.crashloops in
    let (ok, slots) = attach (some slot) run e.slots in
    if ok
    then (
      true,
      record e { crashloops = spawned; slots = slots; states = set_state spec.id running e.states },
    )
    else (false, record e { crashloops = clear_spawn spec.id spawned })

-- The rest of it, which `resumeDaemonBody` shares.
unfoldable pub launch_end : Bool → String → Spec → DaemonSlot → Engine → Engine
launch_end fire_failed run spec slot e =
    if fire_failed
    then record e {
      slots = (release (some slot) run e.slots).1;
      crashloops = clear_spawn spec.id e.crashloops;
      states = set_state spec.id failed_after_preflight e.states;
    }
    else (let e1 = record e { fired = (spec.id, run) ∷ e.fired } in
        if evicted (some slot) e1.slots then kill_run run e1 else e1)

unfoldable pub launch_daemon : ℕ → String → Bool → Spec → DaemonSlot → Engine → Engine
unfolding launch_begin launch_end
launch_daemon now run fire_failed spec slot e =
    let (go_on, e1) = launch_begin now run spec slot e in
    if go_on then launch_end fire_failed run spec slot e1 else e1

unfoldable pub start_daemon : ℕ → String → Bool → Spec → Engine → Engine
unfolding launch_daemon
start_daemon now run fire_failed spec e =
    let (slot, slots) = claim spec.id e.slots in
    elim slot [
      | none ↦ e
      | some h ↦ launch_daemon now run fire_failed spec h (record e { slots = slots })
    ]

unfoldable pub register_daemon : ℕ → String → Bool → Spec → Engine → Engine
unfolding start_daemon
register_daemon now run fire_failed spec e =
    start_daemon now run fire_failed spec (record e { specs = insert spec.id spec e.specs })

-- What `unregisterTriggersKeeping` does for a daemon.
unfoldable pub unregister_daemon : String → Engine → Engine
unregister_daemon id e =
    let (run, slots) = evict id e.slots in
    let e1 = record e {
      specs = delete id e.specs;
      slots = slots;
      crashloops = reset id e.crashloops;
    } in
    if run == "" then e1 else kill_run run e1

-- `false` is an error.
unfoldable pub resume_daemon_body : ℕ → String → Bool → Spec → String → Engine → Bool × Engine
unfolding launch_end
resume_daemon_body now run fire_failed spec suspended_run e =
    elim (holding spec.id suspended_run e.slots) [
      | none ↦ (false, e)
      | some h ↦
          let (ok, slots) = adopt (some h) run e.slots in
          let e1 = record e {
            slots = slots;
            crashloops = note_spawn now spec.id e.crashloops;
            states = set_state spec.id running e.states;
          } in
          if ok then (not fire_failed, launch_end fire_failed run spec h e1) else (false, e)
    ]

abbrev pub is_success : RunStatus → Bool
is_success success = true
is_success _ = false

abbrev pub is_failure : RunStatus → Bool
is_failure failure = true
is_failure _ = false

abbrev pub policy_or_default : String → String
policy_or_default restart = if restart == "" then "always" else restart

abbrev pub restarts_under : String → RunStatus → Bool
restarts_under policy status =
    if policy == "never" then false else if policy == "on-failure" then is_failure status else true

-- Whether the policy starts the daemon again after an exit with this status.
unfoldable pub restarts : String → RunStatus → Bool
restarts restart status = restarts_under (policy_or_default restart) status

-- The backoff of an exit: kept from the last one, unless the run was stable.
abbrev pub backoff_or_init : Option ℕ → ℕ
backoff_or_init none = daemon_backoff_init
backoff_or_init (some b) = b

unfoldable pub backoff_for : ℕ → String → Engine → ℕ
backoff_for elapsed id e =
    if leb daemon_stable_threshold elapsed
    then daemon_backoff_init
    else backoff_or_init (lookup id e.backoffs)

-- `restartDaemonAfterExit` up to the sleep: how long it sleeps, `none` where it returns before.
unfoldable pub exit_decision : Spec → RunStatus → ℕ → Engine → Option ℕ × Engine
unfolding restarts backoff_for
exit_decision spec status elapsed e =
    let (fails, crashloops) = note_exit spec.id elapsed (is_success status) e.crashloops in
    let e1 = record e { crashloops = crashloops } in
    let backoff = backoff_for elapsed spec.id e in
    if restarts spec.restart status
    then (some backoff, record e1 { backoffs = insert spec.id backoff e1.backoffs })
    else (
      none,
      record e1 {
        states = set_state spec.id (if is_success status then stopped else crashed) e1.states;
      },
    )

abbrev pub next_backoff : ℕ → ℕ
next_backoff b = if ltb daemon_backoff_max (b * 2) then daemon_backoff_max else b * 2

-- The rest of it, when the sleep was not cut short by the shutdown.
unfoldable pub after_backoff : ℕ → ℕ → String → Bool → Spec → Engine → Engine
unfolding launch_daemon
after_backoff backoff now run fire_failed spec e =
    let e1 = record e { backoffs = insert spec.id (next_backoff backoff) e.backoffs } in
    let (slot, slots) = claim spec.id e1.slots in
    let e2 = record e1 { slots = slots } in
    if e.shutting_down then e1 else elim slot [
      | none ↦ e1
      | some h ↦ elim (lookup spec.id e2.specs) [
        | none ↦ record e2 { slots = (release (some h) "" e2.slots).1 }
        | some cur ↦ launch_daemon now run fire_failed cur h e2
      ]
    ]
