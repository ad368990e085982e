-- ===== src/Task/Pipeline.antt =====
-- pkg/task/pipeline.go: the checks of a pipeline when it is loaded (PipelineTask.Validate, detectStageCycle), with
-- those of a stage's overrides in pkg/task/overrides.go. An error is its reason; what it prints is left out.
pub mod Search
pub mod Cycle
pub mod Checked
mod Tests
use dicode_core.Prelude.{
  ℕ, zero, suc, ◌+◌, String, Bool, true, false, not, ◌&&◌, ◌||◌, Option, none, some, List, [], ◌∷◌,
  length, contains, ltb, nat_beq, if◌then◌else◌, ◌==◌, string_eq,
}
use dicode_core.Prelude.Dict.{lookup, insert}
use dicode_core.Taskset.Override.{WebhookAuthMode, auth_none, auth_session, auth_any, ParamOverride}
use dicode_core.Task.InputRef.Checked.{RefProblem, validate_input_refs, mentions_params}

pub record PipelineTrigger : Type 0 where
  pub manual : Bool
  pub cron : String
  pub webhook : String
  pub webhook_secret : String
  pub webhook_auth : WebhookAuthMode
  pub has_chain : Bool

-- Of the fields that a stage may not override only whether they are set counts.
pub record StageOverrides : Type 0 where
  pub sets_enabled : Bool
  pub name : String
  pub description : String
  pub sets_retry : Bool
  pub sets_defaults : Bool
  pub sets_entries : Bool
  pub params : List ParamOverride

pub record Stage : Type 0 where
  pub task : String
  pub depends_on : List String
  pub overrides : Option StageOverrides

pub record PipelineTask : Type 0 where
  pub api_version : String
  pub kind : String
  pub name : String
  pub subtype : String
  pub trigger : PipelineTrigger
  pub stages : List Stage
  pub id : String

pub data Invalid : Type 0 where
  wrong_api_version wrong_kind no_name no_subtype unknown_subtype many_triggers : Invalid
  any_without_secret no_stages empty_stage self_stage duplicate_stage : Invalid
  depends_in_sequence unknown_dependency unsupported_override reserved_param : Invalid
  bad_reference : RefProblem → Invalid
  params_unavailable cycle : Invalid

abbrev one_if : Bool → ℕ
one_if b = if b then 1 else 0

unfoldable pub trigger_count : PipelineTrigger → ℕ
trigger_count t =
    one_if t.manual
    + one_if (not (t.cron == ""))
    + one_if (not (t.webhook == ""))
    + one_if t.has_chain

abbrev pub reserved_chain_param_keys : List String
reserved_chain_param_keys =
    "taskID" ∷ "runID" ∷ "status" ∷ "output" ∷ "_chain_depth" ∷ "run_url" ∷ []

unfoldable pub check_stage_params : List ParamOverride → Option Invalid
unfolding validate_input_refs
check_stage_params [] = none
check_stage_params (p ∷ rest) =
    let rest' = check_stage_params rest in
    if contains p.name reserved_chain_param_keys
    then some reserved_param
    else elim (validate_input_refs p.default) [ some why ↦ some (bad_reference why) | none ↦ rest' ]

unfoldable pub validate_pipeline_stage_overrides : StageOverrides → Option Invalid
unfolding check_stage_params
validate_pipeline_stage_overrides o =
    if o.sets_enabled
      || not (o.name == "")
      || not (o.description == "")
      || o.sets_retry
      || o.sets_defaults
      || o.sets_entries
    then some unsupported_override
    else check_stage_params o.params

unfoldable pub check_refs : String → ℕ → Bool → List ParamOverride → Option Invalid
unfolding mentions_params
check_refs subtype i is_root [] = none
check_refs subtype i is_root (p ∷ rest) =
    let rest' = check_refs subtype i is_root rest in
    if subtype == "sequential" && ltb 0 i && mentions_params p.default
    then some params_unavailable
    else if subtype == "parallel" && not is_root && mentions_params p.default
    then some params_unavailable
    else rest'

abbrev pub is_empty : List String → Bool
is_empty [] = true
is_empty (d ∷ rest) = false

-- The loop over a stage's dependencies.
unfoldable pub known_dependencies : List String → List String → Bool
known_dependencies seen [] = true
known_dependencies seen (dep ∷ rest) = contains dep seen && known_dependencies seen rest

-- The names that were seen include the stage's own where its dependencies are checked.
unfoldable pub check_stage : PipelineTask → ℕ → List String → Stage → Option Invalid
unfolding known_dependencies validate_pipeline_stage_overrides check_refs
check_stage p i seen st =
    if st.task == ""
    then some empty_stage
    else if st.task == p.id
    then some self_stage
    else if contains st.task seen
    then some duplicate_stage
    else if not (is_empty st.depends_on) && not (p.subtype == "parallel")
    then some depends_in_sequence
    else if not (known_dependencies (st.task ∷ seen) st.depends_on)
    then some unknown_dependency
    else elim st.overrides [
      | none ↦ none
      | some o ↦ elim (validate_pipeline_stage_overrides o) [
        | some why ↦ some why
        | none ↦ check_refs p.subtype i (is_empty st.depends_on) o.params
      ]
    ]

unfoldable pub check_stages : PipelineTask → ℕ → List String → List Stage → Option Invalid
unfolding check_stage
check_stages p i seen [] = none
check_stages p i seen (st ∷ rest) = elim (check_stage p i seen st) [
  | some why ↦ some why
  | none ↦ check_stages p (i + 1) (st.task ∷ seen) rest
]

-- detectStageCycle: a stage that `color` lacks is white. The result is whether a path is printed; the outer `none`:
-- out of fuel.
pub data Color : Type 0 where
  gray black : Color

abbrev pub Colors : Type 0
Colors = List (String × Color)

abbrev pub Visited : Type 0
Visited = Option (Bool × Colors)

unfoldable pub edges_of : List Stage → List (String × List String) → List (String × List String)
edges_of [] m = m
edges_of (st ∷ rest) m = edges_of rest (insert st.task st.depends_on m)

abbrev pub or_empty : Option (List String) → List String
or_empty none = []
or_empty (some ids) = ids

unfoldable pub visit_all : (String → Colors → Visited) → List String → Colors → Visited
visit_all call [] color = some (false, color)
visit_all call (next ∷ rest) color = elim (lookup next color) [
  | some gray ↦ some (true, color)
  | some black ↦ visit_all call rest color
  | none ↦ elim (call next color) [
    | none ↦ none
    | some (true, color') ↦ some (true, color')
    | some (false, color') ↦ visit_all call rest color'
  ]
]

abbrev pub blacken : String → Visited → Visited
blacken id none = none
blacken id (some (true, color)) = some (true, color)
blacken id (some (false, color)) = some (false, insert id black color)

unfoldable pub visit : (String → List String) → ℕ → String → Colors → Visited
unfolding visit_all
visit edges zero id color = none
visit edges (suc fuel) id color =
    blacken id (visit_all (visit edges fuel) (edges id) (insert id gray color))

-- The last loop starts at every stage that is still white.
unfoldable pub visit_stages : (String → Colors → Visited) → List Stage → Colors → Option Bool
visit_stages call [] color = some false
visit_stages call (st ∷ rest) color = elim (lookup st.task color) [
  | some seen ↦ visit_stages call rest color
  | none ↦ elim (call st.task color) [
    | none ↦ none
    | some (true, color') ↦ some true
    | some (false, color') ↦ visit_stages call rest color'
  ]
]

unfoldable pub detect_stage_cycle : List Stage → Option Bool
unfolding edges_of visit visit_stages
detect_stage_cycle stages =
    let edges = edges_of stages [] in
    visit_stages (visit (λ id. or_empty (lookup id edges)) (length stages + 1)) stages []

abbrev pub wants_any : WebhookAuthMode → Bool
wants_any auth_none = false
wants_any auth_session = false
wants_any auth_any = true

-- The end of Validate. The outer `none`: out of fuel; the inner one: valid.
unfoldable pub validate_stages : PipelineTask → Option (Option Invalid)
unfolding check_stages detect_stage_cycle
validate_stages p = elim (check_stages p 0 [] p.stages) [
  | some why ↦ some (some why)
  | none ↦ if not (p.subtype == "parallel") then some none else elim (detect_stage_cycle p.stages) [
    | none ↦ none
    | some found ↦ if found then some (some cycle) else some none
  ]
]

unfoldable pub validate : PipelineTask → Option (Option Invalid)
unfolding trigger_count validate_stages
validate p =
    if not (p.api_version == "dicode/v1")
    then some (some wrong_api_version)
    else if not (p.kind == "PipelineTask")
    then some (some wrong_kind)
    else if p.name == ""
    then some (some no_name)
    else if p.subtype == ""
    then some (some no_subtype)
    else if not (p.subtype == "sequential") && not (p.subtype == "parallel")
    then some (some unknown_subtype)
    else if ltb 1 (trigger_count p.trigger)
    then some (some many_triggers)
    else if wants_any p.trigger.webhook_auth && p.trigger.webhook_secret == ""
    then some (some any_without_secret)
    else if nat_beq (length p.stages) 0
    then some (some no_stages)
    else validate_stages p
