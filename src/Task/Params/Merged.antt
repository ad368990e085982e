-- ===== src/Task/Params/Merged.antt =====
-- pkg/task/params.go: what MissingRequiredParams reports, by what a run reads.
use text.Mathlib.TextEquality.{eq_iff}
use dicode_core.Prelude.{
  String, ◌≡◌, refl, Bool, true, false, not, ◌&&◌, Option, none, some, List, [], ◌∷◌, arith, ◌==◌,
  string_eq, beq_refl, Bool-cases, Option-cases, inl, inr, if◌then◌else◌,
}
use dicode_core.Prelude.Dict.{lookup, insert, lookup-insert}
use dicode_core.Taskset.Override.{Param}
use dicode_core.Task.Params.{
  is_declared, or_param_default, missing_required_params, set_defaults, set_overrides,
  merged_params,
}

-- No name is declared twice.
abbrev pub distinct : List Param → Bool
distinct [] = true
distinct (p ∷ rest) = not (is_declared p.name rest) && distinct rest

-- What a run reads, "" where the merged parameters have no such name.
abbrev pub reads : String → List (String × String) → String
reads name m = or_param_default "" (lookup name m)

abbrev pub unset : List (String × String) → List Param → List String
unset m [] = []
unset m (p ∷ rest) =
    let rest' = unset m rest in if p.required && reads p.name m == "" then p.name ∷ rest' else rest'

abbrev is_none : Option String → Bool
is_none none = true
is_none (some s) = false

abbrev unread : List (String × String) → List Param → Bool
unread out [] = true
unread out (p ∷ rest) = is_none (lookup p.name out) && unread out rest

abbrev first : Option String → Option String → Option String
first none o = o
first (some s) o = some s

lookup-set_overrides :
    (name : String) (overrides out : List (String × String))
    → lookup name (set_overrides overrides out) ≡ first (lookup name overrides) (lookup name out)
unfolding set_overrides lookup
lookup-set_overrides name [] out = refl
lookup-set_overrides name ((k, v) ∷ rest) out =
    ground
      (arith, lookup-insert k name v (set_overrides rest out), lookup-set_overrides name rest out)

lookup-set_defaults :
    (name : String) (declared : List Param) (out : List (String × String))
    → is_declared name declared ≡ false
    → lookup name (set_defaults declared out) ≡ lookup name out
unfolding set_defaults is_declared
lookup-set_defaults name [] out h = refl
lookup-set_defaults name (p ∷ rest) out h = elim (Bool-cases (p.default == "")) [
  | inl e ↦ rw e (lookup-set_defaults name rest out (ground arith))
  | inr e ↦ rw e (
      ground (
        arith,
        lookup-set_defaults name rest (insert p.name p.default out) (ground arith),
        lookup-insert p.name name p.default out,
      ))
]

unread-insert :
    (name val : String) (declared : List Param) (out : List (String × String))
    → is_declared name declared ≡ false
    → unread out declared ≡ true
    → unread (insert name val out) declared ≡ true
unfolding is_declared
unread-insert name val [] out h f = refl
unread-insert name val (p ∷ rest) out h f = ground (
  arith,
  lookup-insert name p.name val out,
  unread-insert name val rest out (ground arith) (ground arith),
  eq_iff name p.name,
  eq_iff p.name name,
)

unread-empty : (declared : List Param) → unread [] declared ≡ true
unfolding lookup
unread-empty [] = refl
unread-empty (p ∷ rest) = unread-empty rest

lookup-first_default :
    (p : Param) (rest : List Param) (out : List (String × String))
    → is_declared p.name rest ≡ false
    → is_none (lookup p.name out) ≡ true
    → lookup p.name (set_defaults (p ∷ rest) out)
      ≡ (if p.default == "" then none else some p.default)
unfolding set_defaults
lookup-first_default p rest out d f = elim (Bool-cases (p.default == "")) [
  | inl e ↦ rw e (ground (arith, lookup-set_defaults p.name rest out d))
  | inr e ↦ rw e (
      ground (
        arith,
        lookup-set_defaults p.name rest (insert p.name p.default out) d,
        lookup-insert p.name p.name p.default out,
        beq_refl p.name,
      ))
]

reads-merged :
    (p : Param) (rest : List Param) (overrides out : List (String × String))
    → is_declared p.name rest ≡ false
    → is_none (lookup p.name out) ≡ true
    → reads p.name (set_overrides overrides (set_defaults (p ∷ rest) out))
      ≡ or_param_default p.default (lookup p.name overrides)
reads-merged p rest overrides out d f =
    rw (reads, lookup-set_overrides p.name overrides (set_defaults (p ∷ rest) out))
      (elim (Option-cases (lookup p.name overrides)) [
        | inr (s, e) ↦ rw e refl
        | inl e ↦
            rw (e, lookup-first_default p rest out d f)
              (elim (Bool-cases (p.default == "")) [
                | inl z ↦ rw (z, (eq_iff p.default "").0 z) refl
                | inr z ↦ rw z refl
              ])
      ])

unread-set :
    (p : Param) (rest : List Param) (out : List (String × String))
    → is_declared p.name rest ≡ false
    → unread out rest ≡ true
    → unread (if not (p.default == "") then insert p.name p.default out else out) rest ≡ true
unread-set p rest out d f = elim (Bool-cases (p.default == "")) [
  | inl e ↦ rw e f
  | inr e ↦ rw e (unread-insert p.name p.default rest out d f)
]

missing-unset :
    (declared : List Param) (overrides out : List (String × String))
    → distinct declared ≡ true
    → unread out declared ≡ true
    → missing_required_params declared overrides
      ≡ unset (set_overrides overrides (set_defaults declared out)) declared
unfolding missing_required_params set_defaults
missing-unset [] overrides out d f = refl
missing-unset (p ∷ rest) overrides out d f =
    let out' = if not (p.default == "") then insert p.name p.default out else out in
    let rest' =
      missing-unset rest overrides out' (ground arith)
        (unread-set p rest out (ground arith) (ground arith)) in
    ground (arith, rest', reads-merged p rest overrides out (ground arith) (ground arith))

-- Where no parameter is declared twice: `MissingRequiredParams` names, in the order of their declaration, exactly
-- the required parameters that a run would read as empty from what `MergeParams` gives it.
pub missing_required_params-merged :
    (declared : List Param) (overrides : List (String × String))
    → distinct declared ≡ true
    → missing_required_params declared overrides ≡ unset (merged_params declared overrides) declared
unfolding merged_params
missing_required_params-merged declared overrides d =
    missing-unset declared overrides [] d (unread-empty declared)
