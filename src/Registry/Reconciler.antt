-- ===== src/Registry/Reconciler.antt =====
-- pkg/registry/reconciler.go: events of the sources, applied to the registry one after another, with
-- a queue of tasks that wait for a provider. `retryPending` works in a goroutine of its own, so its
-- check of a waiting task and its send are separate steps; other steps may come between them.
pub mod Mirror
pub mod Retrying
mod Tests
use dicode_core.Prelude.{
  ℕ, ◌-◌, String, Bool, true, false, not, ◌&&◌, ◌||◌, Option, none, some, List, [], ◌∷◌, ◌++◌, leb,
  ◌==◌, if◌then◌else◌, string_eq,
}
use dicode_core.Prelude.Dict.{lookup, insert, delete}

-- What ParseFrom makes of the `from` of an environment entry.
pub data From : Type 0 where
  from_env from_task : String → From

-- A task as its event carries it; `spec` is false for a pipeline, `content` stands for the fields
-- that the reconciler only passes on.
pub record Task : Type 0 where
  pub spec : Bool
  pub content : String
  pub env : List From

-- Added and updated are handled alike. The barrier ends a source's first batch.
pub data Event : Type 0 where
  changed : String → Task → Event
  removed : String → Event
  initial_sync_barrier : Event

-- `registered` and `unregistered` are the calls of the two hooks, newest first. `to_check` is what
-- retries still have to look at, `sending` what they are about to send.
pub record State : Type 0 where
  pub tasks : List (String × Task)
  pub pending : List (String × Task)
  pub merged : List Event
  pub to_check : List (String × Task)
  pub sending : List (String × Task)
  pub init_pending : ℕ
  pub ready : Bool
  pub registered : List String
  pub unregistered : List String

-- `Registry.Get`: pipelines are not found.
abbrev pub get_spec : String → List (String × Task) → Bool
get_spec id tasks = elim (lookup id tasks) [ none ↦ false | some t ↦ t.spec ]

abbrev pub provider_ok : List (String × Task) → From → Bool
provider_ok tasks (from_env name) = true
provider_ok tasks (from_task target) = if target == "" then false else get_spec target tasks

-- `validateTaskProviders` returned no error.
unfoldable pub providers_ok : List (String × Task) → List From → Bool
providers_ok tasks [] = true
providers_ok tasks (e ∷ env) =
    let rest = providers_ok tasks env in if provider_ok tasks e then rest else false

abbrev pub admissible : List (String × Task) → Task → Bool
admissible tasks t = if t.spec then providers_ok tasks t.env else true

-- Go's maps have no order; the snapshot here is in the order of the list.
abbrev pub retry_pending : State → State
retry_pending s = record s { to_check = s.to_check ++ s.pending }

unfoldable pub handle_changed : String → Task → State → State
handle_changed id t s =
    if admissible s.tasks t
    then retry_pending (record s {
      tasks = insert id t s.tasks;
      pending = delete id s.pending;
      registered = id ∷ s.registered;
    })
    else record s { pending = insert id t s.pending }

unfoldable pub handle_removed : String → State → State
handle_removed id s = record s {
  pending = delete id s.pending;
  tasks = delete id s.tasks;
  unregistered = id ∷ s.unregistered;
}

unfoldable pub mark_initial_source_synced : State → State
mark_initial_source_synced s =
    let left = s.init_pending - 1 in record s { init_pending = left; ready = s.ready || leb left 0 }

-- One turn of the loop in `Run`, for an event that it received.
unfoldable pub handle : Event → State → State
unfolding handle_changed handle_removed mark_initial_source_synced
handle (changed id t) s = handle_changed id t s
handle (removed id) s = handle_removed id s
handle initial_sync_barrier s = mark_initial_source_synced s

-- The loop takes the oldest event.
unfoldable pub receive : State → State
unfolding handle
receive s = elim s.merged [ [] ↦ s | ev ∷ rest ↦ handle ev (record s { merged = rest }) ]

-- A source sends an event.
abbrev pub push : Event → State → State
push ev s = record s { merged = s.merged ++ ev ∷ [] }

abbrev is_waiting : Option Task → Bool
is_waiting none = false
is_waiting (some t) = true

-- A retry looks whether its next task still waits.
unfoldable pub check_retry : State → State
check_retry s = elim s.to_check [
  | [] ↦ s
  | (id, t) ∷ rest ↦
      let s1 = record s { to_check = rest } in
      if is_waiting (lookup id s.pending)
      then record s1 { sending = s.sending ++ (id, t) ∷ [] }
      else s1
]

-- It sends the event of a task that it looked at.
unfoldable pub send_retry : State → State
send_retry s = elim s.sending [
  | [] ↦ s
  | (id, t) ∷ rest ↦ push (changed id t) (record s { sending = rest })
]
