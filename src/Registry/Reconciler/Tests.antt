-- ===== src/Registry/Reconciler/Tests.antt =====
-- Tests of pkg/registry/reconciler.go: the theorems at concrete states.
use dicode_core.Prelude.{ne_of, string_eq, String, ◌≡◌, refl, true, false, some, List, [], ◌∷◌}
use dicode_core.Prelude.Dict.{lookup, insert, delete}
use dicode_core.Registry.Reconciler.{
  from_task, from_env, Task, changed, removed, initial_sync_barrier, State, providers_ok,
  admissible, handle, receive, push, check_retry, send_retry,
}
use dicode_core.Registry.Reconciler.Retrying.{waiting, retry_registers_removed}
use dicode_core.Registry.Reconciler.Mirror.{last_said, handle_all, tasks-handle_all}

abbrev start : State
start = record {
  tasks = [];
  pending = [];
  merged = [];
  to_check = [];
  sending = [];
  init_pending = 1;
  ready = false;
  registered = [];
  unregistered = [];
}

abbrev provider : Task
provider = record { spec = true; content = "p1"; env = from_env "HOME" ∷ [] }

abbrev consumer : Task
consumer = record { spec = true; content = "c1"; env = from_task "s/p" ∷ [] }

provider_passes : admissible start.tasks provider ≡ true
unfolding providers_ok
provider_passes = refl

still_passes : admissible (delete "s/c" (insert "s/p" provider start.tasks)) consumer ≡ true
unfolding providers_ok lookup insert delete
still_passes = refl

retry_registers_removed_example :
    let s1 =
      push (removed "s/c") (handle (changed "s/p" provider) (waiting "s/c" consumer start)) in
    let s2 = receive (receive (send_retry (check_retry s1))) in
    (lookup "s/c" s2.tasks ≡ some consumer) × (s2.unregistered ≡ "s/c" ∷ []) × (s2.merged ≡ [])
retry_registers_removed_example =
    retry_registers_removed "s/p" provider "s/c" consumer start (ne_of "s/c" "s/p" refl)
      provider_passes still_passes

provider_is_free : (tasks : List (String × Task)) → admissible tasks provider ≡ true
unfolding providers_ok
provider_is_free tasks = refl

tasks-handle_all_example :
    lookup "s/p"
      (handle_all (changed "s/p" provider ∷ initial_sync_barrier ∷ removed "s/q" ∷ []) start).tasks
    ≡ some provider
unfolding last_said
tasks-handle_all_example =
    tasks-handle_all "s/p" (changed "s/p" provider ∷ initial_sync_barrier ∷ removed "s/q" ∷ [])
      start (provider_is_free, (tt, (tt, tt)))
