-- ===== src/Trigger/Chain/Failure/Counting.antt =====
-- pkg/trigger/chain.go: the slots held against the failure chains' open runs.
use text.Mathlib.TextEquality.{eq_iff}
use dicode_core.Prelude.{
  ℕ, ◌+◌, String, ◌≡◌, refl, ap, ◌∙◌, Bool, List, ◌∷◌, arith, ltb, ◌||◌, if◌then◌else◌, ◌==◌,
  string_eq, Bool-cases, Option-cases, inl, inr, beq_refl, subst,
}
use dicode_core.Prelude.Dict.{lookup}
use dicode_core.Task.InputRef.{InputContext, resolve_input_output_map, Resolved-cases}
use dicode_core.Trigger.Chain.Input.{Completion}
use dicode_core.Trigger.Chain.Failure.{
  FailureSpec, ChainEngine, FailureOutcome, is_fired, storm_scope, chain_spec, is_replay,
  effective_max_depth, effective_cooldown, dispatch_failure, check_guards, fire_failure_chain,
}
use dicode_core.Trigger.Chain.Edges.{chain_depth}
use dicode_core.Trigger.Guards.{
  ChainGuards, or_default, storm_suppressed, cooldown_active, acquire_slot, release_slot,
  record_chain_fire, observe_chain_fire,
}
use dicode_core.Trigger.Guards.Slots.{Counts, erase, acquire_slot_lem, release_slot-Counts}

-- The guards differ in no counter.
abbrev SameCounts : ChainGuards → ChainGuards → Type 0
SameCounts g h =
    (g.in_flight_per_task ≡ h.in_flight_per_task) × (g.in_flight_global ≡ h.in_flight_global)

Counts-same :
    (held : List String) (g h : ChainGuards) → SameCounts g h → Counts held h → Counts held g
Counts-same held g h (a, b) c = record {
  each = λ id. ground (arith, c.each id, ap (lookup id) a);
  total = b ∙ c.total;
}

storm_suppressed-counts :
    (scope : String) (now : ℕ) (g : ChainGuards) → SameCounts (storm_suppressed scope now g).1 g
unfolding storm_suppressed
storm_suppressed-counts scope now g = (ground arith, ground arith)

observe-counts :
    (scope : String) (rate window suppress now : ℕ) (g : ChainGuards)
    → SameCounts (observe_chain_fire scope rate window suppress now g) g
unfolding observe_chain_fire
observe-counts scope rate window suppress now g = (ground arith, ground arith)

record-counts :
    (id : String) (now : ℕ) (g : ChainGuards) → SameCounts (record_chain_fire id now g) g
unfolding record_chain_fire
record-counts id now g = (refl, refl)

erase_head : (id : String) (held : List String) → erase id (id ∷ held) ≡ held
erase_head id held = rw (beq_refl id) refl

release_head :
    (id : String) (held : List String) (g : ChainGuards)
    → Counts (id ∷ held) g
    → Counts held (release_slot id g)
release_head id held g c =
    subst (λ l. Counts l (release_slot id g)) (erase_head id held)
      (release_slot-Counts id (id ∷ held) g c (ground (arith, eq_iff id id)))

module _ {A : Type 0} (e : ChainEngine A) (done : Completion A) (ctx : InputContext A)
    (accepted : Bool) (now : ℕ) (held : List String) where
  abbrev HeldAfter : FailureOutcome A × ChainGuards → Type 0
  HeldAfter (o, g) = Counts (if is_fired o then done.task ∷ held else held) g

  recorded-Counts :
      (spec : FailureSpec A) (g : ChainGuards)
      → Counts (done.task ∷ held) g
      → Counts (done.task ∷ held) (
          observe_chain_fire
            (storm_scope done.task)
            spec.storm.rate
            spec.storm.window
            spec.storm.suppress
            now
            (record_chain_fire done.task now g))
  recorded-Counts spec g c =
      let g' = record_chain_fire done.task now g in
      let s = spec.storm in
      Counts-same (done.task ∷ held)
        (observe_chain_fire (storm_scope done.task) s.rate s.window s.suppress now g') g'
        (observe-counts (storm_scope done.task) s.rate s.window s.suppress now g')
        (Counts-same (done.task ∷ held) g' g (record-counts done.task now g) c)

  dispatch-Counts :
      (spec : FailureSpec A) (g : ChainGuards)
      → Counts (done.task ∷ held) g
      → HeldAfter (dispatch_failure e done ctx accepted now spec g)
  unfolding dispatch_failure
  dispatch-Counts spec g c = elim (Resolved-cases (resolve_input_output_map ctx spec.params)) [
    | inl (why, f) ↦ rw (f, dispatch_failure) (release_head done.task held g c)
    | inr (params, f) ↦
        rw (f, dispatch_failure)
          (elim (Bool-cases accepted) [
            | inl a ↦ rw a (recorded-Counts spec g c)
            | inr a ↦ rw a (release_head done.task held g c)
          ])
  ]

  check_guards-Counts :
      (spec : FailureSpec A) (g : ChainGuards)
      → Counts held g
      → HeldAfter (check_guards e done ctx accepted now spec g)
  unfolding check_guards
  check_guards-Counts spec g c =
      let (suppressed, g1) = storm_suppressed (storm_scope done.task) now g in
      let c1 = Counts-same held g1 g (storm_suppressed-counts (storm_scope done.task) now g) c in
      let per = or_default spec.max_concurrent 1 in
      let global = or_default e.defaults.max_concurrent_global 3 in
      let c2 = (acquire_slot_lem done.task per global held g1 c1).1 in
      elim (Bool-cases suppressed) [
        | inl s ↦ rw s c1
        | inr s ↦
            rw s (elim (Bool-cases (cooldown_active done.task (effective_cooldown spec) now g1)) [
              | inl d ↦ rw d c1
              | inr d ↦ rw d (elim (Bool-cases (acquire_slot done.task per global g1).0) [
                | inl given ↦
                    rw given (
                      dispatch-Counts spec (acquire_slot done.task per global g1).1
                        (rw given at c2))
                | inr given ↦ rw given (rw given at c2)
              ])
            ])
      ]

  -- Where the counters count the open runs of failure chains: after a completion they count one more, a
  -- run for the completed task, if a failure chain was fired, and otherwise the same runs.
  pub fire_failure_chain-Counts :
      (g : ChainGuards)
      → Counts held g
      → let (outcome, g') = fire_failure_chain e done ctx accepted now g in
        Counts (if is_fired outcome then done.task ∷ held else held) g'
  unfolding fire_failure_chain
  fire_failure_chain-Counts g c =
      let spec = chain_spec e done.task in
      elim (Bool-cases (done.status == "failure")) [
        | inr s ↦ rw s c
        | inl s ↦ rw s (elim (Bool-cases (spec.task == "" || spec.task == done.task)) [
          | inl t ↦ rw t c
          | inr t ↦ rw t (elim (Bool-cases (is_replay e done.run)) [
            | inl r ↦ rw r c
            | inr r ↦
                rw r
                  (elim (Bool-cases
                    (ltb (effective_max_depth spec) (chain_depth done.run e.depths + 1))) [
                      | inl d ↦ rw d c
                      | inr d ↦ rw d (elim (Option-cases (lookup spec.task e.tasks)) [
                        | inl l ↦ rw l c
                        | inr (target, l) ↦ rw l (check_guards-Counts spec g c)
                      ])
                    ])
          ])
        ])
      ]
