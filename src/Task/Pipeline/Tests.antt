-- ===== src/Task/Pipeline/Tests.antt =====
-- Tests of pkg/task/pipeline.go: the theorems at a parallel pipeline, and one with a stage that depends on itself.
use dicode_core.Prelude.{String, ◌≡◌, refl, true, false, none, some, List, [], ◌∷◌, any}
use dicode_core.Prelude.Dict.{lookup, insert}
use dicode_core.Taskset.Override.{auth_none}
use dicode_core.Task.Pipeline.{
  Stage, PipelineTask, cycle, unknown_dependency, known_dependencies, check_stage, check_stages,
  edges_of, visit, visit_all, visit_stages, detect_stage_cycle, validate_stages, trigger_count,
  validate,
}
use dicode_core.Task.Pipeline.Cycle.{depends_on_itself, detect_stage_cycle_lem}
use dicode_core.Task.Pipeline.Checked.{Ordered, validate-Ordered}

abbrev stage : String → List String → Stage
stage name deps = record { task = name; depends_on = deps; overrides = none }

abbrev pipeline : List Stage → PipelineTask
pipeline stages = record {
  api_version = "dicode/v1";
  kind = "PipelineTask";
  name = "Build";
  subtype = "parallel";
  trigger = record {
    manual = true;
    cron = "";
    webhook = "";
    webhook_secret = "";
    webhook_auth = auth_none;
    has_chain = false;
  };
  stages = stages;
  id = "build";
}

abbrev diamond : PipelineTask
diamond = pipeline (
    stage "fetch" []
    ∷ stage "lint" ("fetch" ∷ [])
    ∷ stage "test" ("fetch" ∷ [])
    ∷ stage "ship" ("lint" ∷ "test" ∷ [])
    ∷ [])

abbrev selfish : PipelineTask
selfish = pipeline (stage "fetch" [] ∷ stage "lint" ("lint" ∷ []) ∷ [])

diamond_valid : validate diamond ≡ some none
unfolding validate validate_stages check_stages check_stage known_dependencies detect_stage_cycle
    edges_of visit visit_all visit_stages lookup insert trigger_count
diamond_valid = refl

forward_refused :
    validate (pipeline (stage "lint" ("fetch" ∷ []) ∷ stage "fetch" [] ∷ []))
    ≡ some (some unknown_dependency)
unfolding validate validate_stages check_stages check_stage known_dependencies trigger_count
forward_refused = refl

-- A stage that depends on itself passes the loop over the stages: only the search finds it.
selfish_passes : check_stages selfish 0 [] selfish.stages ≡ none
unfolding check_stages check_stage known_dependencies
selfish_passes = refl

selfish_found : validate selfish ≡ some (some cycle)
unfolding validate validate_stages check_stages check_stage known_dependencies detect_stage_cycle
    edges_of visit visit_all visit_stages lookup insert trigger_count
selfish_found = refl

detect_stage_cycle_lem_example :
    detect_stage_cycle selfish.stages ≡ some (any depends_on_itself selfish.stages)
detect_stage_cycle_lem_example = detect_stage_cycle_lem selfish selfish_passes

validate-Ordered_example : Ordered diamond [] diamond.stages
validate-Ordered_example = validate-Ordered diamond diamond_valid
