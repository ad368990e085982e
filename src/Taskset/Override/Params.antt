-- ===== src/Taskset/Override/Params.antt =====
-- pkg/taskset/override.go, mergeParams: which params a task has after its overrides.
use text.Mathlib.TextEquality.{eq_iff}
use dicode_core.Prelude.{
  String, ◌≡◌, refl, false, Option, none, some, List, [], ◌∷◌, ◌==◌, ◌∙◌, if◌then◌else◌, string_eq,
  arith, ap,
}
use dicode_core.Taskset.Override.{Param, ParamOverride, required_or, merge_param, merge_params}

-- The param of a name: the first one, as the task's runner reads them.
unfoldable pub find_param : String → List Param → Option Param
find_param n [] = none
find_param n (p ∷ ps) = if p.name == n then some p else find_param n ps

-- What one override makes of the param of a name.
abbrev pub patched : String → Option Param → ParamOverride → Option Param
patched n none po =
    if po.name == n
    then some (record {
      name = po.name;
      kind = "";
      default = po.default;
      description = "";
      required = required_or po.required false;
    })
    else none
patched n (some p) po =
    if po.name == n
    then some (record p { default = po.default; required = required_or po.required p.required })
    else some p

abbrev pub patched_all : String → Option Param → List ParamOverride → Option Param
patched_all n o [] = o
patched_all n o (po ∷ pos) = patched_all n (patched n o po) pos

find-merge_param :
    (n : String) (po : ParamOverride) (ps : List Param)
    → find_param n (merge_param po ps) ≡ patched n (find_param n ps) po
unfolding find_param merge_param
find-merge_param n po [] = ground arith
find-merge_param n po (p ∷ ps) =
    ground
      (arith, eq_iff p.name po.name, eq_iff p.name n, eq_iff po.name n, find-merge_param n po ps)

-- The param of every name is the base's, changed by the overrides of that name alone, in their
-- order; one that the base lacks starts empty at its first override.
pub find-merge_params :
    (n : String) (ps : List Param) (pos : List ParamOverride)
    → find_param n (merge_params ps pos) ≡ patched_all n (find_param n ps) pos
unfolding merge_params
find-merge_params n ps [] = refl
find-merge_params n ps (po ∷ pos) =
    find-merge_params n (merge_param po ps) pos
    ∙ ap (λ o. patched_all n o pos) (find-merge_param n po ps)
