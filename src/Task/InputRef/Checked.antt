-- ===== src/Task/InputRef/Checked.antt =====
-- pkg/task/inputref.go: the check of references when a task is loaded (ValidateInputRefs), and the test for a
-- reference to an upstream parameter (inputParamsRefRe).
use Prim.Native.Char.{code}
use Prim.Native.String.{count, ◌++◌ as str_append}
use dicode_core.Prelude.{
  ℕ, zero, suc, ◌+◌, String, Bool, true, false, not, Option, none, some, List, [], ◌∷◌, nat_beq,
  if◌then◌else◌, ◌==◌, string_eq,
}
use dicode_core.Prelude.Text.{strip}
use dicode_core.Task.InputRef.{
  RefKind, of_output, of_params, Piece, lit, ref, match_ref, pieces, mentions_input,
}

pub data RefProblem : Type 0 where
  unknown_shape needs_field : RefProblem

-- A text cut behind its first `}`.
unfoldable pub cut_brace : String → Option (String × String)
cut_brace String.[] = none
cut_brace (String.◌∷◌ c s) =
    if nat_beq (code c) b'}'
    then some (String.◌∷◌ c String.[], s)
    else elim (cut_brace s) [ none ↦ none | some (inner, rest) ↦ some (String.◌∷◌ c inner, rest) ]

-- The matches of `inputRefPrefixRe` from left to right; the fuel is one more than the text's length.
unfoldable pub attempts : ℕ → String → List String
unfolding strip cut_brace
attempts zero s = []
attempts (suc fuel) String.[] = []
attempts (suc fuel) (String.◌∷◌ c s) = elim (strip "${input." (String.◌∷◌ c s)) [
  | none ↦ attempts fuel s
  | some r ↦ elim (cut_brace r) [
    | none ↦ attempts fuel s
    | some (inner, rest) ↦ str_append "${input." inner ∷ attempts fuel rest
  ]
]

abbrev pub first_ref : List Piece → Option (RefKind × String)
first_ref [] = none
first_ref (lit c ∷ rest) = first_ref rest
first_ref (ref kind field ∷ rest) = some (kind, field)

abbrev pub ref_problem : Option (RefKind × String) → Option RefProblem
ref_problem none = some unknown_shape
ref_problem (some (of_output, field)) = none
ref_problem (some (of_params, field)) = if field == "" then some needs_field else none

unfoldable pub check_attempts : List String → Option RefProblem
unfolding pieces
check_attempts [] = none
check_attempts (m ∷ rest) = elim (ref_problem (first_ref (pieces m))) [
  | some why ↦ some why
  | none ↦ check_attempts rest
]

unfoldable pub validate_input_refs : String → Option RefProblem
unfolding mentions_input attempts check_attempts
validate_input_refs s =
    if not (mentions_input s) then none else check_attempts (attempts (count s + 1) s)

-- `inputParamsRefRe.MatchString(s)`
unfoldable pub mentions_params : String → Bool
unfolding match_ref
mentions_params String.[] = false
mentions_params (String.◌∷◌ c s) = elim (match_ref (String.◌∷◌ c s)) [
  | none ↦ mentions_params s
  | some (of_output, field, rest) ↦ mentions_params s
  | some (of_params, field, rest) ↦ if field == "" then mentions_params s else true
]
