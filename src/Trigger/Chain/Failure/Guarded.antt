-- ===== src/Trigger/Chain/Failure/Guarded.antt =====
-- pkg/trigger/chain.go: what has been checked when a failure chain fires.
use text.Mathlib.TextEquality.{eq_iff}
use dicode_core.Prelude.{
  ℕ, ◌+◌, ◌≤◌, String, ◌≡◌, ◌≢◌, refl, sym, ◌∙◌, Bool, true, false, arith, ◌==◌, string_eq,
  Bool-cases, Option-cases, inl, inr, ◌⊎◌, ltb, ◌||◌,
}
use dicode_core.Prelude.Dict.{lookup}
use dicode_core.Task.InputRef.{InputContext, resolve_input_output_map, Resolved-cases}
use dicode_core.Trigger.Chain.Input.{Completion}
use dicode_core.Trigger.Chain.Edges.{chain_depth}
use dicode_core.Trigger.Chain.Failure.{
  FailureSpec, ChainEngine, FailureOutcome, is_fired, storm_scope, chain_spec, is_replay,
  effective_max_depth, effective_cooldown, dispatch_failure, check_guards, fire_failure_chain,
}
use dicode_core.Trigger.Guards.{
  ChainGuards, or_default, storm_suppressed, cooldown_active, acquire_slot, release_slot,
  record_chain_fire, observe_chain_fire,
}

-- The guards have the same record of fires.
abbrev pub SameFires : ChainGuards → ChainGuards → Type 0
SameFires g h = (g.last_fire ≡ h.last_fire) × (g.storm_fires ≡ h.storm_fires)

storm_suppressed-fires :
    (scope : String) (now : ℕ) (g : ChainGuards) → SameFires (storm_suppressed scope now g).1 g
unfolding storm_suppressed
storm_suppressed-fires scope now g = (ground arith, ground arith)

acquire_slot-fires :
    (id : String) (cap global : ℕ) (g : ChainGuards) → SameFires (acquire_slot id cap global g).1 g
unfolding acquire_slot
acquire_slot-fires id cap global g = (ground arith, ground arith)

pub release_slot-fires : (id : String) (g : ChainGuards) → SameFires (release_slot id g) g
unfolding release_slot
release_slot-fires id g = (ground arith, ground arith)

SameFires-trans : (g h k : ChainGuards) → SameFires g h → SameFires h k → SameFires g k
SameFires-trans g h k (a, b) (c, d) = (a ∙ c, b ∙ d)

cooldown_active-same :
    (id : String) (cooldown now : ℕ) (g h : ChainGuards)
    → SameFires g h
    → cooldown_active id cooldown now g ≡ cooldown_active id cooldown now h
unfolding cooldown_active
cooldown_active-same id cooldown now g h (a, b) = rw a refl

module _ {A : Type 0} (e : ChainEngine A) (done : Completion A) (ctx : InputContext A)
    (accepted : Bool) (now : ℕ) where
  abbrev pub spec_of : FailureSpec A
  spec_of = chain_spec e done.task

  -- The guards after a fire, `h` being the guards with the slot taken.
  abbrev pub recorded : ChainGuards → ChainGuards
  recorded h =
      observe_chain_fire (storm_scope done.task) spec_of.storm.rate spec_of.storm.window
        spec_of.storm.suppress now (record_chain_fire done.task now h)

  -- A chain that fires, from guards `g`: a failed run, neither a replay nor too deep, of a task that is not the
  -- target, outside the cooldown.
  pub record Passed (g g' : ChainGuards) : Type 0 where
    pub failed : done.status ≡ "failure"
    pub other_task : spec_of.task ≢ done.task
    pub not_replay : is_replay e done.run ≡ false
    pub shallow : chain_depth done.run e.depths + 1 ≤ effective_max_depth spec_of
    pub cool : cooldown_active done.task (effective_cooldown spec_of) now g ≡ false
    pub slot : ChainGuards
    pub same : SameFires slot g
    pub after : g' ≡ recorded slot

  abbrev pub Explained : ChainGuards → FailureOutcome A × ChainGuards → Type 0
  Explained g (o, g') =
      ((is_fired o ≡ false) × SameFires g' g) ⊎ ((is_fired o ≡ true) × Passed g g')

  module _ (g h : ChainGuards) (failed : done.status ≡ "failure")
      (other_task : spec_of.task ≢ done.task) (not_replay : is_replay e done.run ≡ false)
      (shallow : chain_depth done.run e.depths + 1 ≤ effective_max_depth spec_of)
      (same : SameFires h g) where
    dispatch-Explained :
        cooldown_active done.task (effective_cooldown spec_of) now g ≡ false
        → Explained g (dispatch_failure e done ctx accepted now spec_of h)
    unfolding dispatch_failure
    dispatch-Explained cool =
        let given_back =
          SameFires-trans (release_slot done.task h) h g (release_slot-fires done.task h) same in
        elim (Resolved-cases (resolve_input_output_map ctx spec_of.params)) [
          | inl (why, f) ↦ rw (f, dispatch_failure) (inl (refl, given_back))
          | inr (params, f) ↦
              rw (f, dispatch_failure)
                (elim (Bool-cases accepted) [
                  | inr a ↦ rw a (inl (refl, given_back))
                  | inl a ↦ rw a (
                      inr (
                        refl,
                        record {
                          failed = failed;
                          other_task = other_task;
                          not_replay = not_replay;
                          shallow = shallow;
                          cool = cool;
                          slot = h;
                          same = same;
                          after = refl;
                        },
                      ))
                ])
        ]

  module _ (g : ChainGuards) (failed : done.status ≡ "failure")
      (other_task : spec_of.task ≢ done.task) (not_replay : is_replay e done.run ≡ false)
      (shallow : chain_depth done.run e.depths + 1 ≤ effective_max_depth spec_of) where
    check_guards-Explained : Explained g (check_guards e done ctx accepted now spec_of g)
    unfolding check_guards
    check_guards-Explained =
        let per = or_default spec_of.max_concurrent 1 in
        let global = or_default e.defaults.max_concurrent_global 3 in
        let cooldown = effective_cooldown spec_of in
        let (suppressed, g1) = storm_suppressed (storm_scope done.task) now g in
        let same1 = storm_suppressed-fires (storm_scope done.task) now g in
        let (given, g2) = acquire_slot done.task per global g1 in
        let same2 = SameFires-trans g2 g1 g (acquire_slot-fires done.task per global g1) same1 in
        elim (Bool-cases suppressed) [
          | inl s ↦ rw s (inl (refl, same1))
          | inr s ↦ rw s (elim (Bool-cases (cooldown_active done.task cooldown now g1)) [
            | inl d ↦ rw d (inl (refl, same1))
            | inr d ↦ rw d (elim (Bool-cases given) [
              | inr n ↦ rw n (inl (refl, same2))
              | inl y ↦ rw y (
                  dispatch-Explained g g2 failed other_task not_replay shallow same2
                    (sym (cooldown_active-same done.task cooldown now g1 g same1) ∙ d))
            ])
          ])
        ]

  differ : spec_of.task ≡ done.task → (spec_of.task == "" || spec_of.task == done.task) ≡ false → ⊥
  differ p t = ground (arith, (eq_iff spec_of.task done.task).1 p)

  -- After any completion the records of fires are as before, and nothing is fired, or all that is checked held.
  pub fire-Explained :
      (g : ChainGuards) → Explained g (fire_failure_chain e done ctx accepted now g)
  unfolding fire_failure_chain
  fire-Explained g =
      let same : SameFires g g = (refl, refl) in
      elim (Bool-cases (done.status == "failure")) [
        | inr s ↦ rw s (inl (refl, same))
        | inl s ↦ rw s (elim (Bool-cases (spec_of.task == "" || spec_of.task == done.task)) [
          | inl t ↦ rw t (inl (refl, same))
          | inr t ↦ rw t (elim (Bool-cases (is_replay e done.run)) [
            | inl r ↦ rw r (inl (refl, same))
            | inr r ↦
                rw r
                  (elim (Bool-cases
                    (ltb (effective_max_depth spec_of) (chain_depth done.run e.depths + 1))) [
                      | inl d ↦ rw d (inl (refl, same))
                      | inr d ↦ rw d (elim (Option-cases (lookup spec_of.task e.tasks)) [
                        | inl l ↦ rw l (inl (refl, same))
                        | inr (target, l) ↦ rw l (
                            check_guards-Explained g ((eq_iff done.status "failure").0 s)
                              (λ p. differ p t) r (ground arith))
                      ])
                    ])
          ])
        ])
      ]
