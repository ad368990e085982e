-- ===== src/Trigger/Daemon/Finish.antt =====
-- pkg/trigger/daemon.go: onDaemonRunFinished and onDaemonSuspensionSwept, up to the backoff sleep.
-- The result is how long to sleep before the daemon starts again, `none` where it does not.
use dicode_core.Prelude.{
  ℕ, String, Bool, true, false, not, ◌||◌, Option, none, some, if◌then◌else◌, string_eq,
}
use dicode_core.Prelude.Dict.{lookup}
use dicode_core.Trigger.Slots.{holding, park, release_run}
use dicode_core.Trigger.Crashloop.{reset}
use dicode_core.Trigger.DaemonState.{stopped, suspended, set_state}
use dicode_core.Trigger.Daemon.{RunStatus, cancelled, run_suspended, Spec, Engine, exit_decision}

abbrev pub is_registered : String → Engine → Bool
is_registered id e = elim (lookup id e.specs) [ none ↦ false | some spec ↦ true ]

-- A suspended body keeps its slot, parked.
unfoldable pub park_suspended : Spec → String → Engine → Engine
park_suspended spec run e = elim (holding spec.id run e.slots) [
  | none ↦ e
  | some h ↦
      let (ok, slots) = park (some h) e.slots in
      if ok then record e { slots = slots; states = set_state spec.id suspended e.states } else e
]

-- What follows for a run that held the slot.
unfoldable pub finish_terminal : Spec → RunStatus → ℕ → Engine → Option ℕ × Engine
finish_terminal spec cancelled elapsed e = (
  none,
  record e { crashloops = reset spec.id e.crashloops; states = set_state spec.id stopped e.states },
)
finish_terminal spec status elapsed e = exit_decision spec status elapsed e

-- `found` is what `GetRun` gives: the status and how long the run lasted, 0 without an end.
unfoldable pub on_daemon_run_finished :
    Spec → String → Option (RunStatus × ℕ) → Engine → Option ℕ × Engine
unfolding park_suspended finish_terminal
on_daemon_run_finished spec run none e =
    (none, record e { slots = (release_run spec.id run e.slots).1 })
on_daemon_run_finished spec run (some (run_suspended, elapsed)) e =
    (none, park_suspended spec run e)
on_daemon_run_finished spec run (some (status, elapsed)) e =
    let (ok, slots) = release_run spec.id run e.slots in
    let e1 = record e { slots = slots } in
    if not ok
    then (none, e1)
    else if not (is_registered spec.id e1) || e1.shutting_down
    then (none, e1)
    else finish_terminal spec status elapsed e1

-- The sweep made the run's status `cancelled`, which here does not stop the daemon.
unfoldable pub on_daemon_suspension_swept :
    Spec → String → RunStatus → ℕ → Engine → Option ℕ × Engine
on_daemon_suspension_swept spec run status elapsed e =
    let (ok, slots) = release_run spec.id run e.slots in
    let e1 = record e { slots = slots } in
    if not ok
    then (none, e1)
    else if not (is_registered spec.id e1) || e1.shutting_down
    then (none, record e1 { states = set_state spec.id stopped e1.states })
    else exit_decision spec status elapsed e1
