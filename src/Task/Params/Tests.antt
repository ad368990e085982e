-- ===== src/Task/Params/Tests.antt =====
-- Tests of pkg/task/params.go: the theorems at a task with a required and an optional parameter.
use dicode_core.Prelude.{String, ◌≡◌, refl, Bool, true, List, [], ◌∷◌}
use dicode_core.Prelude.Dict.{lookup}
use dicode_core.Taskset.Override.{Param}
use dicode_core.Task.Params.{
  Raw, str, bool, number, unknown_parameter, required_parameter, coerce_param, is_declared,
  unknown_keys, check_param, check_params, validate_params, missing_required_params, merged_params,
}
use dicode_core.Task.Params.Merged.{distinct, unset, missing_required_params-merged}
use dicode_core.Task.Params.Fired.{missing-validate_params}

abbrev repo_and_limit : List Param
repo_and_limit =
    record { name = "repo"; kind = ""; default = ""; description = ""; required = true }
    ∷ record { name = "limit"; kind = "number"; default = "10"; description = ""; required = true }
    ∷ []

abbrev any_float : String → Bool
any_float s = true

abbrev payload : List (String × Raw)
payload = ("repo", str "deno") ∷ ("limit", number "5" "5") ∷ []

typo :
    (validate_params any_float true repo_and_limit (("repos", bool true) ∷ [])).errors
    ≡ record { field = "repos"; message = unknown_parameter }
      ∷ record { field = "repo"; message = required_parameter }
      ∷ []
unfolding validate_params check_params check_param unknown_keys is_declared lookup
typo = refl

declared_once : distinct repo_and_limit ≡ true
unfolding is_declared
declared_once = refl

accepts_payload : (validate_params any_float true repo_and_limit payload).errors ≡ []
unfolding validate_params check_params check_param unknown_keys is_declared lookup coerce_param
accepts_payload = refl

overridden_empty :
    missing_required_params repo_and_limit (("limit", "") ∷ []) ≡ "repo" ∷ "limit" ∷ []
unfolding missing_required_params lookup
overridden_empty = refl

missing_required_params-merged_example :
    missing_required_params repo_and_limit (("limit", "") ∷ [])
    ≡ unset (merged_params repo_and_limit (("limit", "") ∷ [])) repo_and_limit
missing_required_params-merged_example =
    missing_required_params-merged repo_and_limit (("limit", "") ∷ []) declared_once

missing-validate_params_example :
    missing_required_params repo_and_limit
      (validate_params any_float true repo_and_limit payload).values
    ≡ []
missing-validate_params_example =
    missing-validate_params any_float repo_and_limit payload declared_once accepts_payload
