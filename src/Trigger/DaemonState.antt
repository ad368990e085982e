-- ===== src/Trigger/DaemonState.antt =====
-- pkg/trigger/daemon_state.go: the phase of a daemon that the engine reports.
use dicode_core.Prelude.{
  ℕ, String, none, some, List, if◌then◌else◌, string_eq, ◌≡◌, arith, ◌==◌, beq_refl,
}
use dicode_core.Prelude.Dict.{lookup, insert, delete, lookup-insert, lookup-delete}
use dicode_core.Trigger.Crashloop.{Tracker, is_crash_looping}

pub data DaemonState : Type 0 where
  stopped running stopping failed_after_preflight crashed suspended crashlooping : DaemonState

abbrev pub DaemonStateMap : Type 0
DaemonStateMap = List (String × DaemonState)

unfoldable pub get_state : String → DaemonStateMap → DaemonState
get_state id m = elim (lookup id m) [ none ↦ stopped | some s ↦ s ]

-- Stopped is the default, and is not kept.
unfoldable pub set_state : String → DaemonState → DaemonStateMap → DaemonStateMap
set_state id stopped m = delete id m
set_state id s m = insert id s m

-- `Engine.DaemonState`, with the tracker that the query leaves.
unfoldable pub daemon_state : ℕ → String → Tracker → DaemonStateMap → DaemonState × Tracker
daemon_state now id t m =
    let (looping, t') = is_crash_looping now id t in
    (if looping then crashlooping else get_state id m, t')

-- What is set is what is read, and other daemons keep theirs.
pub get-set_state :
    (id other : String) (s : DaemonState) (m : DaemonStateMap)
    → get_state other (set_state id s m) ≡ (if id == other then s else get_state other m)
unfolding get_state set_state
get-set_state id other stopped m = ground (arith, lookup-delete id other m)
get-set_state id other running m = ground (arith, lookup-insert id other running m)
get-set_state id other stopping m = ground (arith, lookup-insert id other stopping m)
get-set_state id other failed_after_preflight m =
    ground (arith, lookup-insert id other failed_after_preflight m)
get-set_state id other crashed m = ground (arith, lookup-insert id other crashed m)
get-set_state id other suspended m = ground (arith, lookup-insert id other suspended m)
get-set_state id other crashlooping m = ground (arith, lookup-insert id other crashlooping m)

pub get-set_state_self :
    (id : String) (s : DaemonState) (m : DaemonStateMap) → get_state id (set_state id s m) ≡ s
get-set_state_self id s m = simp (get-set_state, beq_refl)
