-- ===== src/Taskset/Layers.antt =====
-- pkg/taskset/override.go: the layers of overrides on a task, first the one of lowest priority. Values
-- are immutable here, so `copySpec` is the identity and has no definition.
use dicode_core.Prelude.{
  ℕ, ◌≤◌, String, Option, none, some, List, [], ◌∷◌, ◌==◌, if◌then◌else◌, string_eq, nat_eq,
}
use dicode_core.Taskset.Override.{
  TriggerConfig, TriggerPatch, Param, ParamOverride, apply_trigger_patch, merge_params,
}
use dicode_core.Taskset.Override.Triggers.{kinds_of, count_kinds, count-apply_trigger_patch}
use dicode_core.Taskset.Merge.{
  EnvEntry, DicodePermissions, merge_env_entries, unless_empty, replace, merge_dicode_perms,
}

-- The fields of a task that a layer can change; the others are copied.
pub record Spec (C : Type 0) : Type 0 where
  pub name : String
  pub description : String
  pub trigger : TriggerConfig C
  pub params : List Param
  pub env : List EnvEntry
  pub net : List String
  pub fs : List (String × String)
  pub dicode : Option DicodePermissions
  pub timeout : ℕ
  pub runtime : String

pub record Overrides (C : Type 0) : Type 0 where
  pub name : String
  pub description : String
  pub trigger : Option (TriggerPatch C)
  pub params : List ParamOverride
  pub env : List EnvEntry
  pub net : List String
  pub fs : List (String × String)
  pub dicode : Option DicodePermissions
  pub timeout : ℕ
  pub runtime : String

abbrev pub or_string : String → String → String
or_string old new = if new == "" then old else new

module _ {C : Type 0} where
  abbrev pub patch_trigger : Option (TriggerPatch C) → TriggerConfig C → TriggerConfig C
  patch_trigger none t = t
  patch_trigger (some p) t = apply_trigger_patch p t

  -- Merging an empty list changes nothing, so the tests of a length before `mergeParams` and
  -- `mergeEnvEntries` are left to those.
  unfoldable pub apply_layer : Overrides C → Spec C → Spec C
  apply_layer o spec = record {
    name = or_string spec.name o.name;
    description = or_string spec.description o.description;
    trigger = patch_trigger o.trigger spec.trigger;
    params = merge_params spec.params o.params;
    env = unless_empty merge_env_entries spec.env o.env;
    net = unless_empty replace spec.net o.net;
    fs = unless_empty replace spec.fs o.fs;
    dicode = merge_dicode_perms spec.dicode o.dicode;
    timeout = if o.timeout == 0 then spec.timeout else o.timeout;
    runtime = or_string spec.runtime o.runtime;
  }

  unfoldable pub apply_overrides : Spec C → List (Option (Overrides C)) → Spec C
  apply_overrides spec [] = spec
  apply_overrides spec (none ∷ layers) = apply_overrides spec layers
  apply_overrides spec (some o ∷ layers) = apply_overrides (apply_layer o spec) layers

  count-patch_trigger :
      (o : Option (TriggerPatch C)) (t : TriggerConfig C)
      → count_kinds (kinds_of t) ≤ 1
      → count_kinds (kinds_of (patch_trigger o t)) ≤ 1
  count-patch_trigger none t h = h
  count-patch_trigger (some p) t h = count-apply_trigger_patch p t h

  -- A task with at most one trigger type keeps at most one through any layers of overrides, so
  -- validation never refuses an overridden task for having several.
  pub count-apply_overrides :
      (spec : Spec C) (layers : List (Option (Overrides C)))
      → count_kinds (kinds_of spec.trigger) ≤ 1
      → count_kinds (kinds_of (apply_overrides spec layers).trigger) ≤ 1
  unfolding apply_overrides apply_layer
  count-apply_overrides spec [] h = h
  count-apply_overrides spec (none ∷ layers) h = count-apply_overrides spec layers h
  count-apply_overrides spec (some o ∷ layers) h =
      count-apply_overrides (apply_layer o spec) layers
        (count-patch_trigger o.trigger spec.trigger h)
