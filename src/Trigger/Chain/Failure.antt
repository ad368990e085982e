-- ===== src/Trigger/Chain/Failure.antt =====
-- pkg/trigger/chain.go: on_failure_chain (fireFailureChain), with the guards of engine_guardrails.go.
-- `accepted` is what fireAsync answers: whether the fired run was opened.
pub mod Counting
pub mod Guarded
pub mod Storms
use Prim.Native.Char.{code}
use dicode_core.Prelude.{
  ℕ, ◌+◌, ◌*◌, ◌^◌, String, Bool, true, false, not, ◌&&◌, ◌||◌, Option, none, some, List, [], ◌∷◌,
  leb, ltb, nat_beq, if◌then◌else◌, ◌==◌, string_eq,
}
use dicode_core.Prelude.Dict.{lookup, insert}
use dicode_core.Prelude.Text.{before_last_slash}
use dicode_core.Task.InputRef.{
  Value, InputContext, Resolved, ok, unavailable, resolve_input_output_map,
}
use dicode_core.Trigger.Chain.Input.{Completion, Entry, stamp, build_chain_payload}
use dicode_core.Trigger.Chain.Edges.{Depths, chain_depth}
use dicode_core.Trigger.Guards.{
  ChainGuards, or_default, storm_suppressed, cooldown_active, acquire_slot, release_slot,
  record_chain_fire, observe_chain_fire,
}

pub record StormSpec : Type 0 where
  pub rate : ℕ
  pub window : ℕ
  pub suppress : ℕ

pub record FailureSpec (A : Type 0) : Type 0 where
  pub task : String
  pub params : List (String × Value A)
  pub max_depth : ℕ
  pub cooldown : ℕ
  pub max_concurrent : ℕ
  pub max_concurrent_global : ℕ
  pub storm : StormSpec

unfoldable pub storm_scope : String → String
unfolding before_last_slash
storm_scope id =
    let flat = if id == "" then "global" else id in
    elim (before_last_slash id) [
      | none ↦ flat
      | some source ↦ if source == "" then flat else source
    ]

-- Ten minutes, in nanoseconds.
abbrev pub default_cooldown : ℕ
default_cooldown = 600_000_000_000

module _ {A : Type 0} where
  unfoldable pub effective_max_depth : FailureSpec A → ℕ
  effective_max_depth s = or_default s.max_depth 2

  unfoldable pub effective_cooldown : FailureSpec A → ℕ
  effective_cooldown s = or_default s.cooldown default_cooldown

  -- What validating a task's own block takes out of it.
  unfoldable pub without_operator_fields : FailureSpec A → FailureSpec A
  without_operator_fields s = record s {
    max_concurrent_global = 0;
    storm = record { rate = 0; window = 0; suppress = 0 };
  }

-- The registry's tasks, each with its own block, and what the engine knows of the open runs.
pub record ChainEngine (A : Type 0) : Type 0 where
  pub tasks : List (String × Option (FailureSpec A))
  pub defaults : FailureSpec A
  pub sources : List (String × String)
  pub depths : Depths
  pub url : String → String

pub record FiredFailure (A : Type 0) : Type 0 where
  pub target : String
  pub parent : String
  pub chain_parent : String
  pub input : List (String × Entry A)
  pub depth : ℕ

pub data FailureOutcome (A : Type 0) : Type 0 where
  not_failed no_target replay_source too_deep not_registered : FailureOutcome A
  storming cooling_down no_slot unresolved refused : FailureOutcome A
  fired : FiredFailure A → FailureOutcome A

abbrev pub is_fired : {A : Type 0} → FailureOutcome A → Bool
is_fired (fired f) = true
is_fired other = false

module _ {A : Type 0} where
  unfoldable pub chain_spec : ChainEngine A → String → FailureSpec A
  chain_spec e task = elim (lookup task e.tasks) [ some (some own) ↦ own | _ ↦ e.defaults ]

  unfoldable pub is_replay : ChainEngine A → String → Bool
  is_replay e run = elim (lookup run e.sources) [ some source ↦ source == "replay" | none ↦ false ]

  -- The fix-it task runs in review mode unless the parameters say otherwise.
  unfoldable pub with_mode : String → List (String × Entry A) → List (String × Entry A)
  with_mode target input =
      if target == "buildin/auto-fix"
      then elim (lookup "mode" input) [
        | some e ↦ input
        | none ↦ insert "mode" (stamp "review") input
      ]
      else input

  module _ (e : ChainEngine A) (done : Completion A) (ctx : InputContext A) (accepted : Bool)
      (now : ℕ) where
    -- With a slot taken: resolve, fire, and record the fire, or give the slot back.
    unfoldable pub dispatch_failure : FailureSpec A → ChainGuards → FailureOutcome A × ChainGuards
    unfolding with_mode storm_scope
    dispatch_failure spec g = elim (resolve_input_output_map ctx spec.params) [
      | unavailable why ↦ (unresolved, release_slot done.task g)
      | ok params ↦
          let depth = chain_depth done.run e.depths + 1 in
          let input =
            with_mode spec.task (build_chain_payload params done depth (e.url done.run)) in
          if not accepted then (refused, release_slot done.task g) else (
            fired (record {
              target = spec.task;
              parent = done.run;
              chain_parent = done.task;
              input = input;
              depth = depth;
            }),
            observe_chain_fire (storm_scope done.task) spec.storm.rate spec.storm.window
                spec.storm.suppress now (record_chain_fire done.task now g),
          )
    ]

    -- The storm, cooldown and concurrency checks, in their order.
    unfoldable pub check_guards : FailureSpec A → ChainGuards → FailureOutcome A × ChainGuards
    unfolding dispatch_failure effective_cooldown
    check_guards spec g =
        let (suppressed, g1) = storm_suppressed (storm_scope done.task) now g in
        let (given, g2) =
          acquire_slot done.task (or_default spec.max_concurrent 1)
            (or_default e.defaults.max_concurrent_global 3) g1 in
        if suppressed
        then (storming, g1)
        else if cooldown_active done.task (effective_cooldown spec) now g1
        then (cooling_down, g1)
        else if not given
        then (no_slot, g2)
        else dispatch_failure spec g2

    unfoldable pub fire_failure_chain : ChainGuards → FailureOutcome A × ChainGuards
    unfolding chain_spec is_replay effective_max_depth check_guards
    fire_failure_chain g =
        let spec = chain_spec e done.task in
        if not (done.status == "failure")
        then (not_failed, g)
        else if spec.task == "" || spec.task == done.task
        then (no_target, g)
        else if is_replay e done.run
        then (replay_source, g)
        else if ltb (effective_max_depth spec) (chain_depth done.run e.depths + 1)
        then (too_deep, g)
        else elim (lookup spec.task e.tasks) [
          | none ↦ (not_registered, g)
          | some target ↦ check_guards spec g
        ]
