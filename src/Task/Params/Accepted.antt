-- ===== src/Task/Params/Accepted.antt =====
-- pkg/task/params.go: which payloads ValidateParams accepts, and that an accepted one leaves no required
-- parameter out.
use dicode_core.Prelude.{
  String, ◌≡◌, refl, Bool, true, false, not, ◌&&◌, none, some, List, [], ◌∷◌, ◌++◌, all, arith,
  ◌==◌, string_eq, Option-cases, inl, inr,
}
use dicode_core.Prelude.Dict.{lookup, insert}
use dicode_core.Taskset.Override.{Param}
use dicode_core.Task.Params.{
  Raw, ParamError, Coerced, ok, error, coerce_param, is_declared, unknown_keys, Validation, Checked,
  value, leave, report, check_coerced, check_param, check_params, validate_params,
}

abbrev pub no_errors : List ParamError → Bool
no_errors [] = true
no_errors (e ∷ rest) = false

module _ (is_float : String → Bool) (required : Bool) where
  abbrev pub fits_coerced : Param → Coerced → Bool
  fits_coerced p (error why) = false
  fits_coerced p (ok coerced) = not (required && p.required && coerced == "")

  -- What a declared parameter wants of a payload.
  abbrev pub fits : List (String × Raw) → Param → Bool
  fits input p = elim (lookup p.name input) [
    | none ↦ not (required && p.required && p.default == "")
    | some raw ↦ fits_coerced p (coerce_param is_float p.kind raw)
  ]

  abbrev pub known : List Param → List (String × Raw) → Bool
  known declared [] = true
  known declared ((k, v) ∷ rest) = is_declared k declared && known declared rest

  no_errors-unknown_keys :
      (declared : List Param) (input : List (String × Raw))
      → no_errors (unknown_keys declared input) ≡ known declared input
  unfolding unknown_keys
  no_errors-unknown_keys declared [] = refl
  no_errors-unknown_keys declared ((k, v) ∷ rest) =
      ground (arith, no_errors-unknown_keys declared rest)

  no_errors-append : (es : List ParamError) (e : ParamError) → no_errors (es ++ e ∷ []) ≡ false
  no_errors-append [] e = refl
  no_errors-append (x ∷ es) e = refl

  abbrev sets : Checked → Bool
  sets (value s) = true
  sets leave = true
  sets (report why) = false

  sets-check_coerced :
      (p : Param) (c : Coerced) → sets (check_coerced is_float required p c) ≡ fits_coerced p c
  sets-check_coerced p (error why) = refl
  sets-check_coerced p (ok coerced) = ground arith

  sets-check_param :
      (input : List (String × Raw)) (p : Param)
      → sets (check_param is_float required input p) ≡ fits input p
  unfolding check_param
  sets-check_param input p = elim (Option-cases (lookup p.name input)) [
    | inl e ↦ rw (check_param, fits, e) (ground arith)
    | inr (raw, e) ↦
        rw (check_param, fits, e) (sets-check_coerced p (coerce_param is_float p.kind raw))
  ]

  -- The loop after one parameter, from what it did for that parameter.
  no_errors-checked :
      (input : List (String × Raw)) (p : Param) (rest : List Param) (v : Validation) (c : Checked)
      → check_param is_float required input p ≡ c
      → ((w : Validation)
          → no_errors (check_params is_float required input rest w).errors
            ≡ (no_errors w.errors && all (fits input) rest))
      → no_errors (check_params is_float required input (p ∷ rest) v).errors
        ≡ (no_errors v.errors && sets c && all (fits input) rest)
  unfolding check_params
  no_errors-checked input p rest v (value s) e later =
      rw (check_params, e) (ground (arith, later (record v { values = insert p.name s v.values })))
  no_errors-checked input p rest v leave e later = rw (check_params, e) (ground (arith, later v))
  no_errors-checked input p rest v (report why) e later =
      rw (check_params, e)
        (ground (
          arith,
          later (record v { errors = v.errors ++ record { field = p.name; message = why } ∷ [] }),
          no_errors-append v.errors (record { field = p.name; message = why }),
        ))

  no_errors-check_params :
      (input : List (String × Raw)) (declared : List Param) (v : Validation)
      → no_errors (check_params is_float required input declared v).errors
        ≡ (no_errors v.errors && all (fits input) declared)
  unfolding check_params
  no_errors-check_params input [] v = ground arith
  no_errors-check_params input (p ∷ rest) v = ground (
    arith,
    no_errors-checked input p rest v (check_param is_float required input p) refl
        (λ w. no_errors-check_params input rest w),
    sets-check_param input p,
  )

  -- A payload is accepted exactly when all its keys are declared and every declared parameter fits: one that is
  -- given can be coerced to its kind, and, where required ones are enforced, a required one is neither absent
  -- without a default nor coerced to "".
  pub validate_params_lem :
      (declared : List Param) (input : List (String × Raw))
      → no_errors (validate_params is_float required declared input).errors
        ≡ (known declared input && all (fits input) declared)
  unfolding validate_params
  validate_params_lem declared input = ground (
    arith,
    no_errors-check_params input declared
        (record { values = []; errors = unknown_keys declared input }),
    no_errors-unknown_keys declared input,
  )
