-- ===== src/Registry/Runs/Tests.antt =====
-- Tests of pkg/registry/resume.go and pkg/trigger/resume.go: the theorems at a table with a suspended run.
use dicode_core.Prelude.{ℕ, ◌≤◌, String, ◌≡◌, refl, ap, true, none, List, [], ◌∷◌}
use dicode_core.Prelude.Dict.{lookup, insert}
use dicode_core.Registry.Runs.{
  Status, running, cancelled, suspended, Run, Runs, finish_run, suspend_run, update_row, root_for,
  sweep_expired_suspensions, mark_run_resumed, get_run_by_resume_token, with_token, Outside,
  expired, continues, resume_run,
}
use dicode_core.Registry.Runs.Once.{
  Op, finish, suspend, mark, exec, takes, times_taken, times_taken-once,
}
use dicode_core.Registry.Runs.Resumed.{continues_with, Continued, resume_run-Continued}

abbrev row : String → Status → String → ℕ → Run String
row parent status token deadline = record {
  task_id = "wizard";
  status = status;
  finished_at = none;
  fail_reason = "";
  parent_run_id = parent;
  root_run_id = "r0";
  resume_token = token;
  resume_deadline = deadline;
  resume = none;
}

abbrev two_runs : Runs String
two_runs = ("r0", row "" suspended "t0" 500) ∷ ("r1", row "r0" running "" 0) ∷ []

abbrev open_world : Outside String
open_world = record {
  registered = λ task. true;
  admitted = λ task. true;
  restores = λ r. true;
  rehydrates = λ r. true;
  spawns = true;
}

rooted : root_for "r2" "r1" two_runs ≡ "r0"
unfolding root_for lookup
rooted = refl

late : (resume_run open_world (λ runs. runs) 501 "t0" two_runs).0 ≡ expired
unfolding resume_run get_run_by_resume_token with_token sweep_expired_suspensions
late = refl

abbrev calls : List (Op String)
calls =
    suspend "r1" "t1" 0 "state"
    ∷ mark "r0" 100
    ∷ mark "r0" 101
    ∷ finish "r0" cancelled none 102
    ∷ suspend "r0" "t2" 0 "state"
    ∷ mark "r0" 103
    ∷ mark "r1" 104
    ∷ []

taken_at_first : times_taken "r0" calls two_runs ≡ 1
unfolding times_taken takes exec finish_run suspend_run mark_run_resumed update_row lookup insert
taken_at_first = refl

times_taken-once_example : times_taken "r0" calls two_runs ≤ 1
times_taken-once_example = times_taken-once "r0" calls two_runs refl

resumes : (resume_run open_world (λ runs. runs) 400 "t0" two_runs).0 ≡ continues "r0"
unfolding resume_run get_run_by_resume_token with_token mark_run_resumed update_row lookup insert
resumes = refl

resume_run-Continued_example :
    Continued open_world
      (λ runs. runs)
      400
      "t0"
      two_runs
      "r0"
      (resume_run open_world (λ runs. runs) 400 "t0" two_runs).1
resume_run-Continued_example =
    resume_run-Continued open_world (λ runs. runs) 400 "t0" two_runs "r0"
      (ap continues_with resumes)
