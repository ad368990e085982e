-- ===== src/Task/Params/Fired.antt =====
-- pkg/task/params.go: a payload that ValidateParams accepts, fired with the values that it gives back.
use dicode_core.Prelude.{
  String, ◌≡◌, refl, ap, Bool, true, false, List, [], ◌∷◌, ◌++◌, all, arith, ◌==◌, string_eq,
  beq_refl, Bool-cases, Option-cases, inl, inr,
}
use dicode_core.Prelude.Dict.{lookup, insert, lookup-insert}
use dicode_core.Taskset.Override.{Param}
use dicode_core.Task.Params.{
  Raw, Coerced, ok, error, coerce_param, is_declared, Validation, Checked, value, leave, report,
  check_coerced, check_param, check_params, unknown_keys, validate_params, or_param_default,
  missing_required_params,
}
use dicode_core.Task.Params.Merged.{distinct}
use dicode_core.Task.Params.Accepted.{fits_coerced, fits, no_errors, validate_params_lem}

module _ (is_float : String → Bool) where
  abbrev checks : List (String × Raw) → List Param → Validation → Validation
  checks = check_params is_float true

  lookup-checked :
      (name : String) (input : List (String × Raw)) (p : Param) (rest : List Param) (v : Validation)
      (c : Checked)
      → check_param is_float true input p ≡ c
      → (p.name == name) ≡ false
      → ((w : Validation) → lookup name (checks input rest w).values ≡ lookup name w.values)
      → lookup name (checks input (p ∷ rest) v).values ≡ lookup name v.values
  unfolding check_params
  lookup-checked name input p rest v (value s) e n later =
      rw (check_params, e)
        (ground (
          arith,
          later (record v { values = insert p.name s v.values }),
          lookup-insert p.name name s v.values,
        ))
  lookup-checked name input p rest v leave e n later = rw (check_params, e) (later v)
  lookup-checked name input p rest v (report why) e n later =
      rw (check_params, e)
        (later (record v { errors = v.errors ++ record { field = p.name; message = why } ∷ [] }))

  lookup-check_params :
      (name : String) (input : List (String × Raw)) (declared : List Param) (v : Validation)
      → is_declared name declared ≡ false
      → lookup name (checks input declared v).values ≡ lookup name v.values
  unfolding check_params is_declared
  lookup-check_params name input [] v h = refl
  lookup-check_params name input (p ∷ rest) v h =
      lookup-checked name input p rest v (check_param is_float true input p) refl (ground arith)
        (λ w. lookup-check_params name input rest w (ground arith))

  -- The loop goes on with some validation, whatever it did for the first parameter.
  check_params-cons :
      (input : List (String × Raw)) (p : Param) (rest : List Param) (v : Validation) (c : Checked)
      → check_param is_float true input p ≡ c
      → (w : Validation) × (checks input (p ∷ rest) v ≡ checks input rest w)
  unfolding check_params
  check_params-cons input p rest v (value s) e =
      (record v { values = insert p.name s v.values }, rw (check_params, e) refl)
  check_params-cons input p rest v leave e = (v, rw (check_params, e) refl)
  check_params-cons input p rest v (report why) e = (
    record v { errors = v.errors ++ record { field = p.name; message = why } ∷ [] },
    rw (check_params, e) refl,
  )

  coerced_value :
      (p : Param) (c : Coerced)
      → p.required ≡ true
      → fits_coerced is_float true p c ≡ true
      → (s : String) × (check_coerced is_float true p c ≡ value s) × ((s == "") ≡ false)
  coerced_value p (error why) r f = absurd (ground (arith, f))
  coerced_value p (ok s) r f = (s, ground arith, ground arith)

  required_value :
      (input : List (String × Raw)) (p : Param)
      → p.required ≡ true
      → fits is_float true input p ≡ true
      → (s : String) × (check_param is_float true input p ≡ value s) × ((s == "") ≡ false)
  unfolding check_param
  required_value input p r f = elim (Option-cases (lookup p.name input)) [
    | inl e ↦
        let d : (p.default == "") ≡ false = ground (arith, rw (fits, e) at f) in
        (p.default, rw (check_param, e, d) refl, d)
    | inr (raw, e) ↦
        let (s, g, n) = coerced_value p (coerce_param is_float p.kind raw) r (rw (fits, e) at f) in
        (s, rw (check_param, e) g, n)
  ]

  required_read :
      (input : List (String × Raw)) (p : Param) (rest : List Param) (v : Validation)
      → p.required ≡ true
      → fits is_float true input p ≡ true
      → is_declared p.name rest ≡ false
      → (or_param_default p.default (lookup p.name (checks input (p ∷ rest) v).values) == "")
        ≡ false
  unfolding check_params
  required_read input p rest v r f d =
      let (s, e, n) = required_value input p r f in
      rw (check_params, e)
        (ground (
          arith,
          n,
          lookup-check_params p.name input rest (record v { values = insert p.name s v.values }) d,
          lookup-insert p.name p.name s v.values,
          beq_refl p.name,
        ))

  missing-check_params :
      (input : List (String × Raw)) (declared : List Param) (v : Validation)
      → distinct declared ≡ true
      → all (fits is_float true input) declared ≡ true
      → missing_required_params declared (checks input declared v).values ≡ []
  unfolding missing_required_params
  missing-check_params input [] v d f = refl
  missing-check_params input (p ∷ rest) v d f =
      let (w, e) = check_params-cons input p rest v (check_param is_float true input p) refl in
      let later : missing_required_params rest (checks input (p ∷ rest) v).values ≡ [] =
        rw e (missing-check_params input rest w (ground arith) (ground arith)) in
      elim (Bool-cases p.required) [
        | inl r ↦
            ground (arith, later, required_read input p rest v r (ground arith) (ground arith))
        | inr r ↦ ground (arith, later)
      ]

  -- Where no parameter is declared twice: a fire with the values of a payload that `ValidateParams` accepts leaves
  -- no required parameter out.
  pub missing-validate_params :
      (declared : List Param) (input : List (String × Raw))
      → distinct declared ≡ true
      → (validate_params is_float true declared input).errors ≡ []
      → missing_required_params declared (validate_params is_float true declared input).values ≡ []
  unfolding validate_params
  missing-validate_params declared input d e =
      let fit : all (fits is_float true input) declared ≡ true =
        ground (arith, validate_params_lem is_float true declared input, ap no_errors e) in
      missing-check_params input declared
        (record { values = []; errors = unknown_keys declared input }) d fit
