-- ===== src/Taskset/Tests.antt =====
-- Tests of pkg/taskset/override.go: the theorems at concrete tasks and layers.
use dicode_core.Prelude.{String, ◌≡◌, refl, true, false, none, some, List, [], ◌∷◌}
use dicode_core.Taskset.Override.{
  TriggerConfig, TriggerPatch, auth_session, Param, ParamOverride, merge_param, merge_params,
}
use dicode_core.Taskset.Override.Params.{find_param}
use dicode_core.Taskset.Merge.{EnvEntry, DicodePermissions, merge_dicode_perms}
use dicode_core.Taskset.Merge.Perms.{run_task, granted, granted-merge_dicode_perms}
use dicode_core.Taskset.Layers.{Spec, Overrides}

-- A webhook task, with its session auth.
abbrev hook : TriggerConfig String
hook = record {
  cron = "";
  webhook = "/hooks/a";
  webhook_secret = "s";
  webhook_auth = auth_session;
  manual = false;
  chain = none;
  daemon = false;
  restart = "";
}

abbrev no_patch : TriggerPatch String
no_patch = record {
  cron = none;
  webhook = none;
  auth = none;
  manual = none;
  chain = none;
  daemon = none;
  restart = none;
}

abbrev to_cron : TriggerPatch String
to_cron = record no_patch { cron = some "0 9 * * *" }

abbrev repo : Param
repo = record { name = "repo"; kind = "string"; default = "a/b"; description = ""; required = true }

abbrev limit : Param
limit = record {
  name = "limit";
  kind = "number";
  default = "10";
  description = "";
  required = false;
}

abbrev to_twenty : ParamOverride
to_twenty = record { name = "limit"; default = "20"; required = none }

limit_after :
    find_param "limit" (merge_params (repo ∷ limit ∷ []) (to_twenty ∷ []))
    ≡ some (record limit { default = "20" })
unfolding find_param merge_params merge_param
limit_after = refl

abbrev entry : String → String → EnvEntry
entry name value = record {
  name = name;
  from = "";
  secret = "";
  value = value;
  default = "";
  optional = false;
  if_missing = none;
}

abbrev only_tasks : List String → DicodePermissions
only_tasks ids = record {
  tasks = ids;
  mcp = [];
  list_tasks = false;
  get_runs = false;
  secrets_write = false;
  secrets_has = false;
  runs_list_expired = false;
  runs_delete_input = false;
  runs_pin_input = false;
  runs_unpin_input = false;
  runs_list_expired_resume_state = false;
  runs_delete_resume_state = false;
  runs_replay = false;
  runs_get_input = false;
  tasks_test = false;
  sources_list = false;
  sources_set_dev_mode = false;
  git_commit_push = false;
  crypto = [];
  audit_query = false;
}

granted-merge_dicode_perms_example :
    granted
      (run_task "x")
      (merge_dicode_perms (some (only_tasks ("x" ∷ []))) (some (only_tasks ("y" ∷ []))))
    ≡ true
granted-merge_dicode_perms_example =
    granted-merge_dicode_perms (run_task "x") (some (only_tasks ("x" ∷ [])))
      (some (only_tasks ("y" ∷ [])))

abbrev hook_task : Spec String
hook_task = record {
  name = "a";
  description = "";
  trigger = hook;
  params = repo ∷ [];
  env = [];
  net = [];
  fs = [];
  dicode = none;
  timeout = 0;
  runtime = "deno";
}

abbrev cron_layer : Overrides String
cron_layer = record {
  name = "";
  description = "";
  trigger = some to_cron;
  params = to_twenty ∷ [];
  env = [];
  net = "api.github.com" ∷ [];
  fs = [];
  dicode = none;
  timeout = 60;
  runtime = "";
}
