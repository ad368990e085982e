-- ===== src/Task/Pipeline/Checked.antt =====
-- pkg/task/pipeline.go: what a pipeline that PipelineTask.Validate accepts satisfies.
use dicode_core.Prelude.{
  ℕ, ◌+◌, String, ◌≡◌, refl, true, false, Option, none, some, List, [], ◌∷◌, contains, any, arith,
  ◌==◌, string_eq, Bool-cases, Option-cases, inl, inr,
}
use dicode_core.Task.Pipeline.{
  Stage, PipelineTask, Invalid, cycle, is_empty, known_dependencies, check_stages, validate_stages,
  validate,
}
use dicode_core.Task.Pipeline.Cycle.{
  ne_sym, Sound, check_stages-cons, depends_on_itself, detect_stage_cycle_lem,
}

-- Stages in an order in which they can run: every one depends on earlier ones alone. `seen` are the names before.
pub data Ordered (p : PipelineTask) : List String → List Stage → Type 0 where
  done : {seen : List String} → Ordered p seen []
  next :
      {seen : List String} {st : Stage} {rest : List Stage}
      → Sound p seen st
      → known_dependencies seen st.depends_on ≡ true
      → Ordered p (st.task ∷ seen) rest
      → Ordered p seen (st ∷ rest)

known_before :
    (name : String) (seen ds : List String)
    → known_dependencies (name ∷ seen) ds ≡ true
    → contains name ds ≡ false
    → known_dependencies seen ds ≡ true
unfolding known_dependencies
known_before name seen [] k n = refl
known_before name seen (d ∷ ds) k n =
    ground (
      arith,
      k,
      n,
      known_before name seen ds (ground (arith, k)) (ground (arith, n)),
      ne_sym d name,
    )

ordered :
    (p : PipelineTask) (i : ℕ) (seen : List String) (stages : List Stage)
    → check_stages p i seen stages ≡ none
    → any depends_on_itself stages ≡ false
    → Ordered p seen stages
ordered p i seen [] h n = done
ordered p i seen (st ∷ rest) h n =
    let (s, later) = check_stages-cons p i seen st rest h in
    next s (known_before st.task seen st.depends_on s.known (ground (arith, n)))
      (ordered p (i + 1) (st.task ∷ seen) rest later (ground (arith, n)))

contains-empty : (x : String) (ds : List String) → is_empty ds ≡ true → contains x ds ≡ false
contains-empty x [] e = refl
contains-empty x (d ∷ ds) e = absurd (ground (arith, e))

no_self_in_sequence :
    (p : PipelineTask) (i : ℕ) (seen : List String) (stages : List Stage)
    → check_stages p i seen stages ≡ none
    → (p.subtype == "parallel") ≡ false
    → any depends_on_itself stages ≡ false
no_self_in_sequence p i seen [] h s = refl
no_self_in_sequence p i seen (st ∷ rest) h s =
    let (sound, later) = check_stages-cons p i seen st rest h in
    ground (
      arith,
      contains-empty st.task st.depends_on (ground (arith, sound.in_parallel, s)),
      no_self_in_sequence p (i + 1) (st.task ∷ seen) rest later s,
    )

abbrev Answers : Option (Option Invalid) → Type 0
Answers v = (o : Option Invalid) × (v ≡ some o)

validate_stages-Answers : (p : PipelineTask) → Answers (validate_stages p)
unfolding validate_stages
validate_stages-Answers p = elim (Option-cases (check_stages p 0 [] p.stages)) [
  | inr (why, e) ↦ (some why, rw (validate_stages, e) refl)
  | inl e ↦ elim (Bool-cases (p.subtype == "parallel")) [
    | inr s ↦ (none, rw (validate_stages, e, s) refl)
    | inl s ↦ elim (Bool-cases (any depends_on_itself p.stages)) [
      | inl a ↦ (some cycle, rw (validate_stages, e, s, detect_stage_cycle_lem p e, a) refl)
      | inr a ↦ (none, rw (validate_stages, e, s, detect_stage_cycle_lem p e, a) refl)
    ]
  ]
]

validate_stages-Ordered : (p : PipelineTask) → validate_stages p ≡ some none → Ordered p [] p.stages
unfolding validate_stages
validate_stages-Ordered p h = elim (Option-cases (check_stages p 0 [] p.stages)) [
  | inr (why, e) ↦ absurd (ground (arith, rw (validate_stages, e) at h))
  | inl e ↦ ordered p 0 [] p.stages e (elim (Bool-cases (p.subtype == "parallel")) [
    | inr s ↦ no_self_in_sequence p 0 [] p.stages e s
    | inl s ↦ elim (Bool-cases (any depends_on_itself p.stages)) [
      | inr a ↦ a
      | inl a ↦
          absurd (ground (arith, rw (validate_stages, e, s, detect_stage_cycle_lem p e, a) at h))
    ]
  ])
]

-- The checks of a pipeline always end with an answer, the search for a cycle among its stages included.
pub validate-answers : (p : PipelineTask) → (o : Option Invalid) × (validate p ≡ some o)
unfolding validate
validate-answers p = elim (Option-cases (validate p)) [
  | inr answer ↦ answer
  | inl e ↦ let (o, f) = validate_stages-Answers p in absurd (ground (arith, e, f))
]

-- The stages of an accepted pipeline can run in the order in which they are listed: each has a name, which is
-- neither the pipeline's nor an earlier stage's, and depends on earlier stages alone, and on none unless the
-- pipeline is parallel.
pub validate-Ordered : (p : PipelineTask) → validate p ≡ some none → Ordered p [] p.stages
unfolding validate
validate-Ordered p h = validate_stages-Ordered p (ground (arith, h))
