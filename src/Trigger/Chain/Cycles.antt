-- ===== src/Trigger/Chain/Cycles.antt =====
-- pkg/trigger/chain.go: the registration check against the graph that the registry declares.
use text.Mathlib.TextEquality.{eq_iff}
use dicode_core.Prelude.{
  suc, ◌+◌, String, ◌≡◌, refl, Bool, true, false, not, ◌&&◌, ◌||◌, ◌⊎◌, ◌↔◌, inl, inr, sym, none,
  some, List, [], ◌∷◌, ◌++◌, length, contains, arith, ◌==◌, string_eq, beq_refl, Bool-cases,
  Option-cases, subst, ap, ◌∙◌,
}
use dicode_core.Prelude.Dict.{lookup, lookup-insert}
use dicode_core.Trigger.Chain.{
  ChainTrigger, ChainTask, Targets, chain_on, is_success_chain, targets_of, add_target, add_edge,
  success_targets, has_success_chain_cycle, check_success_chain_cycle, unregister_task,
  register_task,
}
use dicode_core.Trigger.Chain.Walks.{
  Relation, Reaches, here, step, Acyclic, Reaches-trans, Reaches-mono, missing_le_length,
  contains-append,
}
use dicode_core.Trigger.Chain.Search.{dfs_decides}

-- The statuses after which a success leads along the edge; "" is the default.
abbrev pub follows_success : String → Bool
follows_success on = on == "" || on == "success" || on == "always"

-- The edge that one task declares.
abbrev pub declares : ChainTask → Relation
declares k x y = elim k.chain [
  | none ↦ false
  | some c ↦ follows_success c.on && c.from == x && k.id == y
]

is_success_chain_lem : (c : ChainTrigger) → follows_success c.on ≡ is_success_chain c
unfolding is_success_chain chain_on
is_success_chain_lem c = elim (Bool-cases (c.on == "")) [
  | inl e ↦ rw e (ground arith)
  | inr e ↦ rw e (ground arith)
]

-- The edges that a registry declares.
abbrev pub declared : List ChainTask → Relation
declared [] x y = false
declared (k ∷ rest) x y = declares k x y || declared rest x y

contains-add_target :
    (from id : String) (m : Targets) (x y : String)
    → contains y (targets_of x (add_target from id m))
      ≡ (contains y (targets_of x m) || from == x && id == y)
unfolding add_target
contains-add_target from id m x y = elim (Bool-cases (from == x)) [
  | inl e ↦
      let e' : from ≡ x = (eq_iff from x).0 e in
      rw
        (
          e',
          lookup-insert x x (targets_of x m ++ id ∷ []) m,
          beq_refl x,
          contains-append y (targets_of x m) (id ∷ []),
        )
        (ground arith)
  | inr e ↦ rw (lookup-insert from x (targets_of from m ++ id ∷ []) m, e) (ground arith)
]

contains-add_edge :
    (k : ChainTask) (m : Targets) (x y : String)
    → contains y (targets_of x (add_edge k m)) ≡ (contains y (targets_of x m) || declares k x y)
unfolding add_edge
contains-add_edge k m x y = elim (Option-cases k.chain) [
  | inl e ↦ rw e (ground arith)
  | inr (c, e) ↦
      rw (e, is_success_chain_lem c)
        (elim (Bool-cases (is_success_chain c)) [
          | inl s ↦ rw s (contains-add_target c.from k.id m x y)
          | inr s ↦ rw s (ground arith)
        ])
]

contains-success_targets :
    (tasks : List ChainTask) (m : Targets) (x y : String)
    → contains y (targets_of x (success_targets tasks m))
      ≡ (contains y (targets_of x m) || declared tasks x y)
unfolding success_targets
contains-success_targets [] m x y = ground arith
contains-success_targets (k ∷ rest) m x y =
    ground (arith, contains-success_targets rest (add_edge k m) x y, contains-add_edge k m x y)

-- The graph that the search walks: what the registry declares, and the proposed edge.
abbrev pub with_edge : String → String → Relation → Relation
with_edge from id g x y = g x y || from == x && id == y

contains-targets :
    (tasks : List ChainTask) (from id x y : String)
    → contains y (targets_of x (add_target from id (success_targets tasks [])))
      ≡ with_edge from id (declared tasks) x y
contains-targets tasks from id x y =
    rw
      (
        contains-add_target from id (success_targets tasks []) x y,
        contains-success_targets tasks [] x y,
      )
      (unfold targets_of lookup in refl)

abbrev names : List ChainTask → List String
names [] = []
names (k ∷ rest) = k.id ∷ names rest

length-names : (tasks : List ChainTask) → length (names tasks) ≡ length tasks
length-names [] = refl
length-names (k ∷ rest) = ap suc (length-names rest)

declares-names : (k : ChainTask) (x y : String) → declares k x y ≡ true → (k.id == y) ≡ true
declares-names k x y h = elim (Option-cases k.chain) [
  | inl e ↦ absurd (cc (rw e at h))
  | inr (c, e) ↦ let h' = rw e at h in ground arith
]

declared-names :
    (tasks : List ChainTask) (x y : String)
    → declared tasks x y ≡ true
    → contains y (names tasks) ≡ true
declared-names [] x y h = absurd (cc)
declared-names (k ∷ rest) x y h = ground (arith, declares-names k x y, declared-names rest x y)

-- The search always answers, and answers that there is a cycle exactly when the tasks' success chains and the
-- proposed edge lead from the new task back to the task that it would chain from.
pub has_success_chain_cycle_lem :
    (tasks : List ChainTask) (new_id from : String)
    → (b : Bool) × (has_success_chain_cycle tasks new_id from ≡ some b)
      × ((b ≡ true) ↔ Reaches (with_edge from new_id (declared tasks)) new_id from)
unfolding has_success_chain_cycle
has_success_chain_cycle_lem tasks new_id from =
    let m = add_target from new_id (success_targets tasks []) in
    let (b, e, iff) =
      dfs_decides (λ x. targets_of x m) from (new_id ∷ names tasks)
        (λ x y h. ground (arith, contains-targets tasks from new_id x y, declared-names tasks x y))
        new_id (length tasks + 2) (ground (arith, eq_iff new_id new_id))
        (omega (arith, missing_le_length (new_id ∷ names tasks) [], length-names tasks)) in
    (
      b,
      e,
      (
        λ h. Reaches-mono (λ x y k. sym (contains-targets tasks from new_id x y) ∙ k) (iff.0 h),
        λ r. iff.1 (Reaches-mono (λ x y k. contains-targets tasks from new_id x y ∙ k) r),
      ),
    )

declared-unregister_task :
    (id : String) (tasks : List ChainTask) (x y : String)
    → declared (unregister_task id tasks) x y ≡ true
    → declared tasks x y ≡ true
unfolding unregister_task
declared-unregister_task id [] x y h = h
declared-unregister_task id (k ∷ rest) x y h = ground (arith, declared-unregister_task id rest x y)

check-success :
    (rest : List ChainTask) (k : ChainTask) (c : ChainTrigger) (b : Bool)
    → k.chain ≡ some c
    → is_success_chain c ≡ true
    → has_success_chain_cycle rest k.id c.from ≡ some b
    → check_success_chain_cycle rest k ≡ some (not b)
unfolding check_success_chain_cycle
check-success rest k c b e s f = rw (e, s, f) refl

check-other :
    (rest : List ChainTask) (k : ChainTask) (c : ChainTrigger)
    → k.chain ≡ some c
    → is_success_chain c ≡ false
    → check_success_chain_cycle rest k ≡ some true
unfolding check_success_chain_cycle
check-other rest k c e s = rw (e, s) refl

check-bare :
    (rest : List ChainTask) (k : ChainTask)
    → k.chain ≡ none
    → check_success_chain_cycle rest k ≡ some true
unfolding check_success_chain_cycle
check-bare rest k e = rw e refl

-- The check always gives an answer.
check_answers :
    (rest : List ChainTask) (k : ChainTask)
    → (b : Bool) × (check_success_chain_cycle rest k ≡ some b)
check_answers rest k = elim (Option-cases k.chain) [
  | inl e ↦ (true, check-bare rest k e)
  | inr (c, e) ↦ elim (Bool-cases (is_success_chain c)) [
    | inl s ↦
        let (b, f, iff) = has_success_chain_cycle_lem rest k.id c.from in
        (not b, check-success rest k c b e s f)
    | inr s ↦ (true, check-other rest k c e s)
  ]
]

module _ (k : ChainTask) (others : List ChainTask) where
  abbrev After : Relation
  After = declared (k ∷ others)

  -- A walk avoids the edges of `k`, or it comes to where `k` chains from and goes on from `k`.
  split :
      (c : ChainTrigger)
      → k.chain ≡ some c
      → {x y : String} → Reaches After x y
      → Reaches (declared others) x y ⊎ (Reaches After k.id y × Reaches After x c.from)
  split c e here = inl here
  split c e (step {y} {z} r h) = elim (Bool-cases (declares k y z)) [
    | inl d ↦
        let d' = rw e at d in
        inr (
          subst (Reaches After k.id) ((eq_iff k.id z).0 (ground arith)) here,
          subst (Reaches After _) (sym ((eq_iff c.from y).0 (ground arith))) r,
        )
    | inr d ↦ elim (split c e r) [
      | inl old ↦ inl (step old (ground arith))
      | inr (a, b) ↦ inr (step a h, b)
    ]
  ]

  rejects_cycles :
      (c : ChainTrigger)
      → k.chain ≡ some c
      → Acyclic (declared others)
      → (Reaches After k.id c.from → ⊥)
      → Acyclic After
  rejects_cycles c e old apart x y h r = elim (Bool-cases (declares k x y)) [
    | inl d ↦
        let d' = rw e at d in
        apart (
          subst (Reaches After k.id) (sym ((eq_iff c.from x).0 (ground arith)))
            (subst (λ z. Reaches After z x) (sym ((eq_iff k.id y).0 (ground arith))) r))
    | inr d ↦ elim (split c e r) [
      | inl r' ↦ old x y (ground arith) r'
      | inr (a, b) ↦ apart (Reaches-trans (step a h) b)
    ]
  ]

  no_success : ((x y : String) → declares k x y ≡ false) → Acyclic (declared others) → Acyclic After
  no_success none_of old x y h r =
      old x y (ground (arith, none_of x y)) (Reaches-mono (λ a b e. ground (arith, none_of a b)) r)

  closes :
      (c : ChainTrigger)
      → k.chain ≡ some c
      → is_success_chain c ≡ true
      → Reaches (with_edge c.from k.id After) k.id c.from
      → ¬ Acyclic After
  closes c e s r acyclic =
      let edge : (x y : String) → with_edge c.from k.id After x y ≡ true → After x y ≡ true =
        λ x y h. rw e (ground (arith, s, is_success_chain_lem c, rw e at h)) in
      acyclic c.from k.id (edge c.from k.id (ground (arith, beq_refl c.from, beq_refl k.id)))
        (Reaches-mono edge r)

  check_lem :
      Acyclic (declared others)
      → (check_success_chain_cycle (k ∷ others) k ≡ some true) ↔ Acyclic After
  check_lem old = elim (Option-cases k.chain) [
    | inl e ↦ (λ h. no_success (λ x y. rw e refl) old, λ a. check-bare (k ∷ others) k e)
    | inr (c, e) ↦ elim (Bool-cases (is_success_chain c)) [
      | inr s ↦ (
        λ h. no_success (λ x y. rw (e, is_success_chain_lem c, s) refl) old,
        λ a. check-other (k ∷ others) k c e s,
      )
      | inl s ↦
          let (b, f, iff) = has_success_chain_cycle_lem (k ∷ others) k.id c.from in
          let answer = check-success (k ∷ others) k c b e s f in
          (
            λ h.
                rejects_cycles c e old
                  (λ r. cc (iff.1 (Reaches-mono (λ x y d. ground arith) r), h, answer)),
            λ a. elim (Bool-cases b) [
              | inl cyclic ↦ absurd (closes c e s (iff.0 cyclic) a)
              | inr free ↦ cc (answer, free)
            ],
          )
    ]
  ]

-- Where the success chains of the registered tasks have no cycle, a task that is added, or registered again under
-- its name, passes the check exactly when the success chains of the registry with it have no cycle; and the
-- check always gives an answer.
pub check_success_chain_cycle-Acyclic :
    (tasks : List ChainTask) (k : ChainTask)
    → Acyclic (declared tasks)
    → ((b : Bool) × (check_success_chain_cycle (register_task k tasks) k ≡ some b))
      × ((check_success_chain_cycle (register_task k tasks) k ≡ some true)
          ↔ Acyclic (declared (register_task k tasks)))
unfolding register_task
check_success_chain_cycle-Acyclic tasks k old = (
  check_answers (k ∷ unregister_task k.id tasks) k,
  check_lem k (unregister_task k.id tasks) (λ x y h r.
      old x y (declared-unregister_task k.id tasks x y h)
        (Reaches-mono (declared-unregister_task k.id tasks) r)),
)
