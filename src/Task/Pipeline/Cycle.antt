-- ===== src/Task/Pipeline/Cycle.antt =====
-- pkg/task/pipeline.go: what the loop over the stages leaves for detectStageCycle to find.
use text.Mathlib.TextEquality.{eq_iff}
use dicode_core.Prelude.{
  ℕ, suc, any, ◌+◌, ◌<◌, String, ◌≡◌, refl, sym, subst, Bool, true, false, ◌||◌, ◌⊎◌, inl, inr,
  none, some, List, [], ◌∷◌, length, contains, arith, ◌==◌, string_eq, beq_refl, Bool-cases,
  Option-cases, if◌then◌else◌,
}
use dicode_core.Prelude.Dict.{lookup, insert, lookup-insert}
use dicode_core.Task.Pipeline.{
  Stage, PipelineTask, is_empty, known_dependencies, check_stage, check_stages, edges_of, or_empty,
  detect_stage_cycle,
}
use dicode_core.Task.Pipeline.Search.{Descends, listed, Decides, visit_stages_lem}

-- The dependencies of the stage with a name, and its place among the stages.
abbrev pub deps_of : String → List Stage → List String
deps_of id [] = []
deps_of id (st ∷ rest) = if st.task == id then st.depends_on else deps_of id rest

abbrev pub position : String → List Stage → ℕ
position id [] = 0
position id (st ∷ rest) = let later = position id rest in if st.task == id then 0 else suc later

position-bounded : (id : String) (stages : List Stage) → position id stages < length stages + 1
position-bounded id [] = omega arith
position-bounded id (st ∷ rest) = ground (arith, position-bounded id rest)

-- What a stage that passes its checks satisfies.
pub record Sound (p : PipelineTask) (seen : List String) (st : Stage) : Type 0 where
  pub is_named : (st.task == "") ≡ false
  pub is_other : (st.task == p.id) ≡ false
  pub is_new : contains st.task seen ≡ false
  pub in_parallel : (is_empty st.depends_on || p.subtype == "parallel") ≡ true
  pub known : known_dependencies (st.task ∷ seen) st.depends_on ≡ true

pub check_stage-Sound :
    (p : PipelineTask) (i : ℕ) (seen : List String) (st : Stage)
    → check_stage p i seen st ≡ none
    → Sound p seen st
unfolding check_stage
check_stage-Sound p i seen st h = record {
  is_named = ground (arith, h);
  is_other = ground (arith, h);
  is_new = ground (arith, h);
  in_parallel = ground (arith, h);
  known = ground (arith, h);
}

pub check_stages-cons :
    (p : PipelineTask) (i : ℕ) (seen : List String) (st : Stage) (rest : List Stage)
    → check_stages p i seen (st ∷ rest) ≡ none
    → Sound p seen st × (check_stages p (i + 1) (st.task ∷ seen) rest ≡ none)
unfolding check_stages
check_stages-cons p i seen st rest h = elim (Option-cases (check_stage p i seen st)) [
  | inl e ↦ (check_stage-Sound p i seen st e, rw (check_stages, e) at h)
  | inr (why, e) ↦ absurd (ground (arith, rw (check_stages, e) at h))
]

pub ne_sym : (a b : String) → (a == b) ≡ false → (b == a) ≡ false
ne_sym a b n = elim (Bool-cases (b == a)) [
  | inr e ↦ e
  | inl e ↦ let e' : b ≡ a = (eq_iff b a).0 e in absurd (ground (arith, n, (eq_iff a b).1 (sym e')))
]

-- No later stage has a name that was seen.
new_names :
    (p : PipelineTask) (i : ℕ) (seen : List String) (stages : List Stage) (x : String)
    → check_stages p i seen stages ≡ none
    → listed x stages ≡ true
    → contains x seen ≡ false
new_names p i seen [] x h l = absurd (ground (arith, l))
new_names p i seen (st ∷ rest) x h l =
    let (s, later) = check_stages-cons p i seen st rest h in
    elim (Bool-cases (st.task == x)) [
      | inl same ↦ rw⁻¹ ((eq_iff st.task x).0 same) s.is_new
      | inr other ↦
          ground
            (arith, new_names p (i + 1) (st.task ∷ seen) rest x later (ground (arith, l, other)))
    ]

unlisted :
    (p : PipelineTask) (i : ℕ) (seen : List String) (st : Stage) (rest : List Stage)
    → check_stages p i seen (st ∷ rest) ≡ none
    → listed st.task rest ≡ false
unlisted p i seen st rest h = elim (Bool-cases (listed st.task rest)) [
  | inr e ↦ e
  | inl e ↦
      let later = (check_stages-cons p i seen st rest h).1 in
      absurd (
        ground (arith, new_names p (i + 1) (st.task ∷ seen) rest st.task later e, beq_refl st.task))
]

lookup-edges_of :
    (p : PipelineTask) (i : ℕ) (seen : List String) (stages : List Stage)
    (m : List (String × List String)) (id : String)
    → check_stages p i seen stages ≡ none
    → lookup id (edges_of stages m)
      ≡ (if listed id stages then some (deps_of id stages) else lookup id m)
unfolding edges_of
lookup-edges_of p i seen [] m id h = refl
lookup-edges_of p i seen (st ∷ rest) m id h =
    let later = (check_stages-cons p i seen st rest h).1 in
    let ih =
      lookup-edges_of p (i + 1) (st.task ∷ seen) rest (insert st.task st.depends_on m) id later in
    elim (Bool-cases (st.task == id)) [
      | inl same ↦
          let alone : listed id rest ≡ false =
            rw⁻¹ ((eq_iff st.task id).0 same) (unlisted p i seen st rest h) in
          ground (arith, ih, same, alone, lookup-insert st.task id st.depends_on m)
      | inr other ↦ ground (arith, ih, other, lookup-insert st.task id st.depends_on m)
    ]

deps_of-unlisted :
    (id : String) (stages : List Stage) → listed id stages ≡ false → deps_of id stages ≡ []
deps_of-unlisted id [] l = refl
deps_of-unlisted id (st ∷ rest) l = ground (arith, l, deps_of-unlisted id rest (ground (arith, l)))

abbrev pub edges : List Stage → String → List String
edges stages id = or_empty (lookup id (edges_of stages []))

edges-eq :
    (p : PipelineTask) (stages : List Stage) (id : String)
    → check_stages p 0 [] stages ≡ none
    → edges stages id ≡ deps_of id stages
unfolding lookup
edges-eq p stages id h = elim (Bool-cases (listed id stages)) [
  | inl l ↦ rw (lookup-edges_of p 0 [] stages [] id h, l) refl
  | inr l ↦ rw (lookup-edges_of p 0 [] stages [] id h, l, deps_of-unlisted id stages l) refl
]

contains-known :
    (seen ds : List String) (d : String)
    → known_dependencies seen ds ≡ true
    → contains d ds ≡ true
    → contains d seen ≡ true
unfolding known_dependencies
contains-known seen [] d k c = absurd (ground (arith, c))
contains-known seen (x ∷ ds) d k c = elim (Bool-cases (x == d)) [
  | inl same ↦ rw⁻¹ ((eq_iff x d).0 same) (ground (arith, k))
  | inr other ↦ contains-known seen ds d (ground (arith, k)) (ground (arith, c, other))
]

-- A dependency was seen before, or is the stage itself or an earlier one.
deps_descend :
    (p : PipelineTask) (i : ℕ) (seen : List String) (stages : List Stage) (id next : String)
    → check_stages p i seen stages ≡ none
    → contains next (deps_of id stages) ≡ true
    → (next == id) ≡ false
    → (contains next seen ≡ true) ⊎ (position next stages < position id stages)
deps_descend p i seen [] id next h c n = absurd (ground (arith, c))
deps_descend p i seen (st ∷ rest) id next h c n =
    let (s, later) = check_stages-cons p i seen st rest h in
    elim (Bool-cases (st.task == id)) [
      | inl same ↦
          let found =
            contains-known (st.task ∷ seen) st.depends_on next s.known (ground (arith, c, same)) in
          let differs : (st.task == next) ≡ false =
            rw ((eq_iff st.task id).0 same) (ne_sym next id n) in
          inl (ground (arith, found, differs))
      | inr other ↦
          elim (deps_descend p (i + 1) (st.task ∷ seen) rest id next later
            (ground (arith, c, other)) n) [
              | inr below ↦ inr (ground (arith, below, other))
              | inl found ↦ elim (Bool-cases (st.task == next)) [
                | inl first ↦ inr (ground (arith, first, other))
                | inr differs ↦ inl (ground (arith, found, differs))
              ]
            ]
    ]

abbrev pub depends_on_itself : Stage → Bool
depends_on_itself st = contains st.task st.depends_on

any-loop :
    (x : String) (stages : List Stage)
    → contains x (deps_of x stages) ≡ true
    → any depends_on_itself stages ≡ true
any-loop x [] c = absurd (ground (arith, c))
any-loop x (st ∷ rest) c = elim (Bool-cases (st.task == x)) [
  | inl same ↦
      let c' : contains x st.depends_on ≡ true = ground (arith, c, same) in
      let self : contains st.task st.depends_on ≡ true = rw ((eq_iff st.task x).0 same) c' in
      ground (arith, self)
  | inr other ↦ ground (arith, any-loop x rest (ground (arith, c, other)))
]

no_loop :
    (p : PipelineTask) (i : ℕ) (seen : List String) (stages : List Stage)
    → check_stages p i seen stages ≡ none
    → ((x : String) → listed x stages ≡ true → contains x (deps_of x stages) ≡ false)
    → any depends_on_itself stages ≡ false
no_loop p i seen [] h n = refl
no_loop p i seen (st ∷ rest) h n =
    let later = (check_stages-cons p i seen st rest h).1 in
    let first : contains st.task st.depends_on ≡ false =
      ground (arith, n st.task, beq_refl st.task) in
    let rest' = no_loop p (i + 1) (st.task ∷ seen) rest later (λ x l.
      elim (Bool-cases (st.task == x)) [
        | inl same ↦
            let l' : listed st.task rest ≡ true = rw ((eq_iff st.task x).0 same) l in
            absurd (ground (arith, l', unlisted p i seen st rest h))
        | inr other ↦ ground (arith, n x, l, other)
      ]) in
    ground (arith, first, rest')

any-Decides :
    (p : PipelineTask) (stages : List Stage) (b : Bool)
    → check_stages p 0 [] stages ≡ none
    → Decides (edges stages) (λ id. position id stages) stages b
    → any depends_on_itself stages ≡ b
any-Decides p stages true h (x, l) =
    any-loop x stages (subst (λ z. contains x z ≡ true) (edges-eq p stages x h) l)
any-Decides p stages false h d =
    no_loop p 0 [] stages h
      (λ x l. subst (λ z. contains x z ≡ false) (edges-eq p stages x h) (d x l))

-- Where the loop over the stages reports nothing: the search for a cycle always answers, its fuel being enough, and
-- finds one exactly when a stage depends on itself.
pub detect_stage_cycle_lem :
    (p : PipelineTask)
    → check_stages p 0 [] p.stages ≡ none
    → detect_stage_cycle p.stages ≡ some (any depends_on_itself p.stages)
unfolding detect_stage_cycle lookup
detect_stage_cycle_lem p h =
    let descends : Descends (edges p.stages) (λ id. position id p.stages) = λ id next c n.
      elim (deps_descend p 0 [] p.stages id next h
        (subst (λ z. contains next z ≡ true) (edges-eq p p.stages id h) c) n) [
          | inl seen ↦ absurd (ground (arith, seen))
          | inr below ↦ below
        ] in
    let (b, f, d) =
      visit_stages_lem (edges p.stages) (λ id. position id p.stages) descends (length p.stages + 1)
        (λ x. position-bounded x p.stages) p.stages [] (λ x. refl)
        (λ x e. absurd (ground (arith, e))) in
    rw (any-Decides p p.stages b h d) f
