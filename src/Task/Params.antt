-- ===== src/Task/Params.antt =====
-- pkg/task/params.go: a payload of parameters against what a task is_declared (ValidateParams), and the required
-- ones that a fire leaves out (MissingRequiredParams); pkg/runtime/socketbridge.go: what a run reads (MergeParams).
-- `is_float` says whether `strconv.ParseFloat` takes a text.
pub mod Merged
pub mod Accepted
pub mod Fired
mod Tests
use dicode_core.Prelude.{
  String, Bool, true, false, not, ◌&&◌, ◌||◌, Option, none, some, List, [], ◌∷◌, ◌++◌, any,
  contains, ◌==◌, string_eq, if◌then◌else◌,
}
use dicode_core.Prelude.Dict.{lookup, insert}
use dicode_core.Taskset.Override.{Param}

-- A decoded JSON value: a number with its `FormatFloat` text and its `%v` text, anything else with its `%v` text.
pub data Raw : Type 0 where
  str : String → Raw
  bool : Bool → Raw
  number : String → String → Raw
  other : String → Raw

pub data Problem : Type 0 where
  unknown_parameter required_parameter expected_string expected_number : Problem
  expected_boolean expected_cron empty_cron : Problem

pub record ParamError : Type 0 where
  pub field : String
  pub message : Problem

pub data Coerced : Type 0 where
  ok : String → Coerced
  error : Problem → Coerced

-- `strconv.FormatBool` and `strconv.ParseBool`
abbrev pub format_bool : Bool → String
format_bool b = if b then "true" else "false"

unfoldable pub parse_bool : String → Option Bool
parse_bool s =
    if contains s ("1" ∷ "t" ∷ "T" ∷ "TRUE" ∷ "true" ∷ "True" ∷ [])
    then some true
    else if contains s ("0" ∷ "f" ∷ "F" ∷ "FALSE" ∷ "false" ∷ "False" ∷ [])
    then some false
    else none

-- One function for each case of coerceParam's switch.
abbrev pub coerce_string : Raw → Coerced
coerce_string (str s) = ok s
coerce_string (bool b) = ok (format_bool b)
coerce_string (number text general) = ok text
coerce_string (other text) = error expected_string

abbrev pub coerce_number : (String → Bool) → Raw → Coerced
coerce_number is_float (str s) = if is_float s then ok s else error expected_number
coerce_number is_float (bool b) = error expected_number
coerce_number is_float (number text general) = ok text
coerce_number is_float (other text) = error expected_number

abbrev pub coerce_boolean : Raw → Coerced
coerce_boolean (str s) = elim (parse_bool s) [
  | none ↦ error expected_boolean
  | some b ↦ ok (format_bool b)
]
coerce_boolean (bool b) = ok (format_bool b)
coerce_boolean (number text general) = error expected_boolean
coerce_boolean (other text) = error expected_boolean

abbrev pub coerce_cron : Raw → Coerced
coerce_cron (str s) = if s == "" then error empty_cron else ok s
coerce_cron (bool b) = error expected_cron
coerce_cron (number text general) = error expected_cron
coerce_cron (other text) = error expected_cron

abbrev pub coerce_any : Raw → Coerced
coerce_any (str s) = ok s
coerce_any (bool b) = ok (format_bool b)
coerce_any (number text general) = ok general
coerce_any (other text) = ok text

unfoldable pub coerce_param : (String → Bool) → String → Raw → Coerced
coerce_param is_float kind raw =
    if kind == "string" || kind == ""
    then coerce_string raw
    else if kind == "number"
    then coerce_number is_float raw
    else if kind == "boolean"
    then coerce_boolean raw
    else if kind == "cron"
    then coerce_cron raw
    else coerce_any raw

-- Whether `declaredByName` has the name.
unfoldable pub is_declared : String → List Param → Bool
is_declared name [] = false
is_declared name (p ∷ rest) = p.name == name || is_declared name rest

unfoldable pub unknown_keys : List Param → List (String × Raw) → List ParamError
unknown_keys declared [] = []
unknown_keys declared ((k, v) ∷ rest) =
    let rest' = unknown_keys declared rest in
    if is_declared k declared
    then rest'
    else record { field = k; message = unknown_parameter } ∷ rest'

-- What the loop does for one parameter: set a value, leave it, or report.
pub data Checked : Type 0 where
  value : String → Checked
  leave : Checked
  report : Problem → Checked

pub record Validation : Type 0 where
  pub values : List (String × String)
  pub errors : List ParamError

module _ (is_float : String → Bool) (required : Bool) where
  abbrev pub check_coerced : Param → Coerced → Checked
  check_coerced p (error why) = report why
  check_coerced p (ok coerced) =
      if required && p.required && coerced == "" then report required_parameter else value coerced

  unfoldable pub check_param : List (String × Raw) → Param → Checked
  check_param input p = elim (lookup p.name input) [
    | none ↦
        if not (p.default == "")
        then value p.default
        else if required && p.required
        then report required_parameter
        else leave
    | some raw ↦ check_coerced p (coerce_param is_float p.kind raw)
  ]

  unfoldable pub check_params : List (String × Raw) → List Param → Validation → Validation
  unfolding check_param
  check_params input [] v = v
  check_params input (p ∷ rest) v = elim (check_param input p) [
    | value s ↦ check_params input rest (record v { values = insert p.name s v.values })
    | leave ↦ check_params input rest v
    | report why ↦
        check_params input rest
          (record v { errors = v.errors ++ record { field = p.name; message = why } ∷ [] })
  ]

  -- `validateParams`, of which ValidateParams is the case that `required` is set.
  unfoldable pub validate_params : List Param → List (String × Raw) → Validation
  unfolding check_params unknown_keys
  validate_params declared input =
      check_params input declared (record { values = []; errors = unknown_keys declared input })

abbrev pub or_param_default : String → Option String → String
or_param_default default none = default
or_param_default default (some s) = s

unfoldable pub missing_required_params : List Param → List (String × String) → List String
missing_required_params [] overrides = []
missing_required_params (p ∷ rest) overrides =
    let rest' = missing_required_params rest overrides in
    if not p.required
    then rest'
    else if or_param_default p.default (lookup p.name overrides) == ""
    then p.name ∷ rest'
    else rest'

-- The two loops of MergeParams.
unfoldable pub set_defaults : List Param → List (String × String) → List (String × String)
set_defaults [] out = out
set_defaults (p ∷ rest) out =
    set_defaults rest (if not (p.default == "") then insert p.name p.default out else out)

unfoldable pub set_overrides :
    List (String × String) → List (String × String) → List (String × String)
set_overrides [] out = out
set_overrides ((k, v) ∷ rest) out = insert k v (set_overrides rest out)

unfoldable pub merged_params : List Param → List (String × String) → List (String × String)
unfolding set_defaults set_overrides
merged_params declared overrides = set_overrides overrides (set_defaults declared [])
