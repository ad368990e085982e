-- ===== src/Trigger/Chain/Failure/Storms.antt =====
-- pkg/trigger/chain.go: the cooldown and the storm breaker over sequences of completions.
use dicode_core.Prelude.{
  ℕ, ◌≤◌, String, ◌≡◌, refl, ap, ◌∙◌, Bool, some, List, [], ◌∷◌, string_eq, inl, inr,
}
use dicode_core.Prelude.Dict.{lookup}
use dicode_core.Task.InputRef.{InputContext}
use dicode_core.Trigger.Chain.Input.{Completion}
use dicode_core.Trigger.Chain.Failure.{
  FailureSpec, ChainEngine, chain_spec, fire_failure_chain, storm_scope, without_operator_fields,
}
use dicode_core.Trigger.Chain.Failure.Guarded.{fire-Explained}
use dicode_core.Trigger.Guards.{ChainGuards, release_slot, record_chain_fire, observe_chain_fire}

-- What happens to the guards: a run of any task completes, or the run of a failure chain ends.
pub data Event (A : Type 0) : Type 0 where
  completed : ChainEngine A → Completion A → InputContext A → Bool → ℕ → Event A
  ended : String → Event A

module _ {A : Type 0} where
  unfoldable pub run_event : Event A → ChainGuards → ChainGuards
  run_event (completed e done ctx accepted now) g = (fire_failure_chain e done ctx accepted now g).1
  run_event (ended task) g = release_slot task g

  unfoldable pub run_events : List (Event A) → ChainGuards → ChainGuards
  unfolding run_event
  run_events [] g = g
  run_events (ev ∷ events) g = run_events events (run_event ev g)

  -- No completion is earlier than `t`.
  abbrev pub NotBefore : ℕ → List (Event A) → Type 0
  NotBefore t [] = Unit
  NotBefore t (completed e done ctx accepted now ∷ events) = (t ≤ now) × NotBefore t events
  NotBefore t (ended task ∷ events) = NotBefore t events

-- The last fire for a task was at `t` or later.
abbrev FiredSince : String → ℕ → ChainGuards → Type 0
FiredSince id t g = (last : ℕ) × (lookup id g.last_fire ≡ some last) × (t ≤ last)

observe-off :
    (scope : String) (window suppress now : ℕ) (g : ChainGuards)
    → observe_chain_fire scope 0 window suppress now g ≡ g
unfolding observe_chain_fire
observe-off scope window suppress now g = refl

chain_spec-own :
    {A : Type 0} (e : ChainEngine A) (task : String) (own : FailureSpec A)
    → lookup task e.tasks ≡ some (some own)
    → chain_spec e task ≡ own
unfolding chain_spec
chain_spec-own e task own h = rw (h, chain_spec) refl

no_rate : {A : Type 0} (s own : FailureSpec A) → s ≡ without_operator_fields own → s.storm.rate ≡ 0
unfolding without_operator_fields
no_rate s own e = ap (λ (x : FailureSpec _). x.storm.rate) e

-- A task's own on_failure_chain block, as validation leaves it, has no storm settings, and the engine reads them there:
-- the fires of that task's failure chain are not counted towards the storm breaker, whatever the defaults say.
pub fire_failure_chain-own_block :
    {A : Type 0} (e : ChainEngine A) (done : Completion A) (ctx : InputContext A) (accepted : Bool)
    (now : ℕ) (g : ChainGuards) (own : FailureSpec A)
    → lookup done.task e.tasks ≡ some (some (without_operator_fields own))
    → (fire_failure_chain e done ctx accepted now g).1.storm_fires ≡ g.storm_fires
fire_failure_chain-own_block e done ctx accepted now g own h =
    elim (fire-Explained e done ctx accepted now g) [
      | inl (quiet, same) ↦ same.1
      | inr (fires, p) ↦
          let spec = chain_spec e done.task in
          let s = spec.storm in
          let off = no_rate spec own (chain_spec-own e done.task (without_operator_fields own) h) in
          let g1 = record_chain_fire done.task now p.slot in
          ap (λ (x : ChainGuards). x.storm_fires) p.after
          ∙ ap
              (λ (rate : ℕ).
                (observe_chain_fire (storm_scope done.task) rate s.window s.suppress now
                  g1).storm_fires)
              off
          ∙ ap (λ (x : ChainGuards). x.storm_fires)
              (observe-off (storm_scope done.task) s.window s.suppress now g1)
          ∙ unfold record_chain_fire in p.same.1
    ]
