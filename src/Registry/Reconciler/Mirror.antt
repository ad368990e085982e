-- ===== src/Registry/Reconciler/Mirror.antt =====
-- pkg/registry/reconciler.go: the registry against the events of the sources.
use text.Mathlib.TextEquality.{eq_iff}
use dicode_core.Prelude.{
  String, ◌≡◌, refl, ◌∙◌, true, Option, none, some, List, [], ◌∷◌, ◌==◌, if◌then◌else◌, string_eq,
  arith, All,
}
use dicode_core.Prelude.Dict.{lookup, lookup-insert, lookup-delete}
use dicode_core.Registry.Reconciler.{
  Task, Event, changed, removed, initial_sync_barrier, State, admissible, handle_changed,
  handle_removed, mark_initial_source_synced, handle,
}

-- The loop, for events that come one after another.
unfoldable pub handle_all : List Event → State → State
handle_all [] s = s
handle_all (ev ∷ evs) s = handle_all evs (handle ev s)

-- What the events say of a task: `none` where they say nothing, `some none` for a removal.
abbrev pub said : String → Event → Option (Option Task) → Option (Option Task)
said id (changed j t) later = elim later [
  | some o ↦ some o
  | none ↦ if j == id then some (some t) else none
]
said id (removed j) later = elim later [
  | some o ↦ some o
  | none ↦ if j == id then some none else none
]
said id initial_sync_barrier later = later

unfoldable pub last_said : String → List Event → Option (Option Task)
last_said id [] = none
last_said id (ev ∷ evs) = said id ev (last_said id evs)

-- An event of a task that waits for no provider, whatever is registered.
abbrev pub NeedsNone : Event → Type 0
NeedsNone (changed id t) = (tasks : List (String × Task)) → admissible tasks t ≡ true
NeedsNone (removed id) = Unit
NeedsNone initial_sync_barrier = Unit

abbrev pub or_before : Option (Option Task) → Option Task → Option Task
or_before none o = o
or_before (some o) before = o

tasks-handle :
    (id : String) (ev : Event) (s : State) (evs : List Event)
    → NeedsNone ev
    → or_before (last_said id evs) (lookup id (handle ev s).tasks)
      ≡ or_before (said id ev (last_said id evs)) (lookup id s.tasks)
unfolding handle handle_changed handle_removed mark_initial_source_synced
tasks-handle id (changed j t) s evs free =
    ground (arith, free s.tasks, eq_iff j id, lookup-insert j id t s.tasks)
tasks-handle id (removed j) s evs free = ground (arith, eq_iff j id, lookup-delete j id s.tasks)
tasks-handle id initial_sync_barrier s evs free = refl

-- Where no task needs a provider: after any events of any sources, each task is registered as the
-- last event about it says, and one that no event is about is registered as before.
pub tasks-handle_all :
    (id : String) (evs : List Event) (s : State)
    → All NeedsNone evs
    → lookup id (handle_all evs s).tasks ≡ or_before (last_said id evs) (lookup id s.tasks)
unfolding handle_all last_said
tasks-handle_all id [] s free = refl
tasks-handle_all id (ev ∷ evs) s (free, frees) =
    tasks-handle_all id evs (handle ev s) frees ∙ tasks-handle id ev s evs free
