-- ===== src/Registry/Runs.antt =====
-- pkg/registry/registry.go and resume.go: the table of runs, and pkg/trigger/resume.go: ResumeRun. The table is a
-- map by the run's id (its primary key). NULL is "" for a text and 0 for a deadline. `R` is what a suspension
-- stores for its continuation (state, schema, parameters, or the key of an offloaded state). Times are milliseconds.
pub mod Once
pub mod Resumed
mod Tests
use dicode_core.Prelude.{
  ℕ, String, Bool, true, false, not, ◌&&◌, Option, none, some, List, [], ◌∷◌, contains, ltb,
  if◌then◌else◌, ◌==◌, string_eq,
}
use dicode_core.Prelude.Dict.{lookup, insert}

pub data Status : Type 0 where
  running success failure cancelled suspended resumed : Status

abbrev pub is_running : Status → Bool
is_running running = true
is_running _ = false

abbrev pub is_suspended : Status → Bool
is_suspended suspended = true
is_suspended _ = false

pub record Run (R : Type 0) : Type 0 where
  pub task_id : String
  pub status : Status
  pub finished_at : Option ℕ
  pub fail_reason : String
  pub parent_run_id : String
  pub root_run_id : String
  pub resume_token : String
  pub resume_deadline : ℕ
  pub resume : Option R

abbrev pub reason_resume_timeout : String
reason_resume_timeout = "resume_timeout"

abbrev pub or_parent : String → String → String
or_parent parent root = if root == "" then parent else root

abbrev pub Runs : Type 0 → Type 0
Runs R = List (String × Run R)

pub data Marked : Type 0 where
  marked run_not_found run_not_suspended : Marked

-- Why ResumeRun refuses without touching the run.
pub data Refusal : Type 0 where
  token_not_found not_suspended no_task pending no_params no_state mark_failed : Refusal

pub data Resumption : Type 0 where
  refused : Refusal → Resumption
  expired : Resumption
  continues : String → Resumption
  spawn_failed : String → Resumption

-- What ResumeRun asks other parts: whether the task is registered, whether the fire guard admits it, whether the
-- stored parameters can be restored and the stored state fetched, and whether the continuation is spawned.
pub record Outside (R : Type 0) : Type 0 where
  pub registered : String → Bool
  pub admitted : String → Bool
  pub restores : Run R → Bool
  pub rehydrates : Run R → Bool
  pub spawns : Bool

module _ {R : Type 0} where
  abbrev pub root_or_empty : Option (Run R) → String
  root_or_empty none = ""
  root_or_empty (some r) = r.root_run_id

  unfoldable pub root_for : String → String → Runs R → String
  root_for id parent runs =
      if parent == "" then id else or_parent parent (root_or_empty (lookup parent runs))

  abbrev pub new_run : String → String → String → Runs R → Run R
  new_run id task_id parent runs = record {
    task_id = task_id;
    status = running;
    finished_at = none;
    fail_reason = "";
    parent_run_id = parent;
    root_run_id = root_for id parent runs;
    resume_token = "";
    resume_deadline = 0;
    resume = none;
  }

  -- `none`: the insert fails, since the id is taken.
  unfoldable pub start_run_with_id : String → String → String → Runs R → Option (Runs R)
  unfolding root_for
  start_run_with_id id task_id parent runs = elim (lookup id runs) [
    | some r ↦ none
    | none ↦ some (insert id (new_run id task_id parent runs) runs)
  ]

  -- `UPDATE runs SET … WHERE id = ? AND …`, and whether a row changed.
  unfoldable pub update_row : String → (Run R → Bool) → (Run R → Run R) → Runs R → Bool × Runs R
  update_row id guard change runs = elim (lookup id runs) [
    | none ↦ (false, runs)
    | some r ↦ if guard r then (true, insert id (change r) runs) else (false, runs)
  ]

  -- FinishRun, and with a reason FinishRunWithReason: no guard on the status.
  unfoldable pub finish_run : String → Status → Option String → ℕ → Runs R → Runs R
  unfolding update_row
  finish_run id status reason now runs =
      (update_row id (λ r. true)
        (λ r. record r {
          status = status;
          finished_at = some now;
          fail_reason = elim reason [ none ↦ r.fail_reason | some why ↦ why ];
        })
        runs).1

  unfoldable pub suspend_run : String → String → ℕ → R → Runs R → Bool × Runs R
  unfolding update_row
  suspend_run id token deadline stored runs =
      update_row id (λ r. is_running r.status)
        (λ r. record r {
          status = suspended;
          resume_token = token;
          resume_deadline = deadline;
          resume = some stored;
        })
        runs

  -- Only a row that did not change is looked at again.
  abbrev pub mark_answer : Bool → Option (Run R) → Marked
  mark_answer true row = marked
  mark_answer false none = run_not_found
  mark_answer false (some r) = run_not_suspended

  unfoldable pub mark_run_resumed : String → ℕ → Runs R → Marked × Runs R
  unfolding update_row
  mark_run_resumed id now runs =
      let (affected, runs') =
        update_row id (λ r. is_suspended r.status)
          (λ r. record r { status = resumed; finished_at = some now }) runs in
      (mark_answer affected (lookup id runs'), runs')

  unfoldable pub cancel_suspended_run : String → String → ℕ → Runs R → Bool × Runs R
  unfolding update_row
  cancel_suspended_run id reason now runs =
      update_row id (λ r. is_suspended r.status)
        (λ r. record r {
          status = cancelled;
          finished_at = some now;
          fail_reason = reason;
          resume_token = "";
        })
        runs

  abbrev pub is_expired : ℕ → Run R → Bool
  is_expired now r = is_suspended r.status && ltb 0 r.resume_deadline && ltb r.resume_deadline now

  -- The selected rows are updated one by one in one transaction.
  unfoldable pub sweep_expired_suspensions : ℕ → Runs R → List String × Runs R
  sweep_expired_suspensions now [] = ([], [])
  sweep_expired_suspensions now ((id, r) ∷ rest) =
      let (ids, rest') = sweep_expired_suspensions now rest in
      if is_expired now r
      then (
        id ∷ ids,
        (
          id,
          record r {
            status = cancelled;
            finished_at = some now;
            fail_reason = reason_resume_timeout;
          },
        )
            ∷ rest',
      )
      else (ids, (id, r) ∷ rest')

  -- The distinct tasks of the runs that were running, and the table in which those are cancelled.
  unfoldable pub cleanup_stale_runs : ℕ → Runs R → List String × Runs R
  cleanup_stale_runs now [] = ([], [])
  cleanup_stale_runs now ((id, r) ∷ rest) =
      let (tasks, rest') = cleanup_stale_runs now rest in
      if is_running r.status
      then (
        if contains r.task_id tasks then tasks else r.task_id ∷ tasks,
        (id, record r { status = cancelled; finished_at = some now }) ∷ rest',
      )
      else (tasks, (id, r) ∷ rest')

  unfoldable pub with_token : String → Runs R → Option (String × Run R)
  with_token token [] = none
  with_token token ((id, r) ∷ rest) =
      if r.resume_token == token then some (id, r) else with_token token rest

  unfoldable pub get_run_by_resume_token : String → Runs R → Option (String × Run R)
  unfolding with_token
  get_run_by_resume_token token runs = if token == "" then none else with_token token runs

  abbrev pub consumed : Bool → String → Marked × Runs R → Resumption × Runs R
  consumed spawns id (marked, runs) = (if spawns then continues id else spawn_failed id, runs)
  consumed spawns id (run_not_found, runs) = (refused mark_failed, runs)
  consumed spawns id (run_not_suspended, runs) = (refused not_suspended, runs)

  -- `between` is what other calls do to the table between ResumeRun's read of the run and its next write.
  unfoldable pub resume_run :
      Outside R → (Runs R → Runs R) → ℕ → String → Runs R → Resumption × Runs R
  unfolding get_run_by_resume_token mark_run_resumed sweep_expired_suspensions
  resume_run out between now token runs =
      let runs' = between runs in
      elim (get_run_by_resume_token token runs) [
        | none ↦ (refused token_not_found, runs')
        | some (id, r) ↦
            if not (is_suspended r.status)
            then (refused not_suspended, runs')
            else if ltb 0 r.resume_deadline && ltb r.resume_deadline now
            then (expired, (sweep_expired_suspensions now runs').1)
            else if not (out.registered r.task_id)
            then (refused no_task, runs')
            else if not (out.admitted r.task_id)
            then (refused pending, runs')
            else if not (out.restores r)
            then (refused no_params, runs')
            else if not (out.rehydrates r)
            then (refused no_state, runs')
            else consumed out.spawns id (mark_run_resumed id now runs')
      ]
