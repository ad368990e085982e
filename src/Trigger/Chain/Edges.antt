-- ===== src/Trigger/Chain/Edges.antt =====
-- pkg/trigger/chain.go: the success-chain edges that fire when a run completes, for tasks and for pipelines.
-- An edge's `overridden` says what validating the task with the edge's overrides gives, none where it has
-- no overrides; a pipeline's edge has none.
use text.Mathlib.TextEquality.{eq_iff}
use dicode_core.Prelude.{
  ℕ, zero, suc, ◌+◌, ◌≤◌, ◌<◌, String, ◌≡◌, ap, Bool, true, false, not, ◌||◌, Option, none, some,
  List, [], ◌∷◌, ltb, if◌then◌else◌, ◌==◌, string_eq, arith, Option-cases, inl, inr,
}
use dicode_core.Prelude.Dict.{lookup, insert, lookup-insert}
use dicode_core.Task.InputRef.{Value, InputContext, ok, unavailable, resolve_input_output_map}
use dicode_core.Trigger.Chain.Input.{Completion, ChainInput, build_chain_input}

pub record Edge (A : Type 0) : Type 0 where
  pub from : String
  pub on : String
  pub params : List (String × Value A)
  pub overridden : Option Bool

pub record Subscriber (A : Type 0) : Type 0 where
  pub id : String
  pub edge : Option (Edge A)

pub record Fired (A : Type 0) : Type 0 where
  pub target : String
  pub parent : String
  pub input : ChainInput A
  pub depth : ℕ

abbrev pub max_success_chain_depth : ℕ
max_success_chain_depth = 10

abbrev pub depth_or_zero : Option ℕ → ℕ
depth_or_zero none = 0
depth_or_zero (some d) = d

-- `runChainDepth`, the hop counts of the open runs.
abbrev pub Depths : Type 0
Depths = List (String × ℕ)

unfoldable pub chain_depth : String → Depths → ℕ
chain_depth run depths = depth_or_zero (lookup run depths)

unfoldable pub next_chain_depth : String → Depths → Option ℕ
unfolding chain_depth
next_chain_depth run depths =
    let next = chain_depth run depths + 1 in
    if ltb max_success_chain_depth next then none else some next

-- What beginRun stores of a fired run: a hop count of 0 is not stored.
unfoldable pub begin_run_depth : String → ℕ → Depths → Depths
begin_run_depth run depth depths = if ltb 0 depth then insert run depth depths else depths

unfoldable pub overrides_ok : Option Bool → Bool
overrides_ok none = true
overrides_ok (some valid) = valid

module _ {A : Type 0} where
  unfoldable pub edge_on : Edge A → String
  edge_on c = if c.on == "" then "success" else c.on

  unfoldable pub chain_edge_matches : Option (Edge A) → String → String → Bool
  unfolding edge_on
  chain_edge_matches none task status = false
  chain_edge_matches (some c) task status =
      if not (c.from == task) then false else edge_on c == "always" || edge_on c == status

  module _ (url : String → String) (done : Completion A) (ctx : InputContext A)
      (depths : Depths) where
    unfoldable pub dispatch : String → Edge A → Option (Fired A)
    unfolding next_chain_depth
    dispatch id c = elim (resolve_input_output_map ctx c.params) [
      | unavailable why ↦ none
      | ok params ↦ elim (next_chain_depth done.run depths) [
        | none ↦ none
        | some next ↦ some (record {
          target = id;
          parent = done.run;
          input = build_chain_input params done next (url done.run);
          depth = next;
        })
      ]
    ]

    -- One pass of the loop over the tasks, and over the pipelines.
    unfoldable pub fire_edge : Subscriber A → Option (Fired A)
    unfolding chain_edge_matches overrides_ok dispatch
    fire_edge sub = elim sub.edge [
      | none ↦ none
      | some c ↦
          if not (chain_edge_matches (some c) done.task done.status)
          then none
          else if not (overrides_ok c.overridden)
          then none
          else dispatch sub.id c
    ]

    abbrev pub keep : Option (Fired A) → List (Fired A) → List (Fired A)
    keep none rest = rest
    keep (some f) rest = f ∷ rest

    unfoldable pub fire_success_chains : List (Subscriber A) → List (Fired A)
    unfolding fire_edge
    fire_success_chains [] = []
    fire_success_chains (sub ∷ rest) = keep (fire_edge sub) (fire_success_chains rest)

    dispatch_depth :
        (id : String) (c : Edge A) (f : Fired A)
        → dispatch id c ≡ some f
        → (f.depth ≡ chain_depth done.run depths + 1) × (f.depth ≤ max_success_chain_depth)
    unfolding dispatch
    dispatch_depth id c f h = ground arith

    -- A fired run is one hop deeper than the run that fired it, and at most at the ceiling.
    pub fire_edge_depth :
        (sub : Subscriber A) (f : Fired A)
        → fire_edge sub ≡ some f
        → (f.depth ≡ chain_depth done.run depths + 1) × (f.depth ≤ max_success_chain_depth)
    unfolding fire_edge
    fire_edge_depth sub f h = elim (Option-cases sub.edge) [
      | inl e ↦ absurd (cc (rw (e, fire_edge) at h))
      | inr (c, e) ↦ dispatch_depth sub.id c f (dispatched c (rw (e, fire_edge) at h))
    ]
      where
        dispatched :
            (c : Edge A)
            → (if not (chain_edge_matches (some c) done.task done.status)
                then none
                else if not (overrides_ok c.overridden)
                then none
                else dispatch sub.id c)
              ≡ some f
            → dispatch sub.id c ≡ some f
        dispatched c h = ground arith

-- Runs of which each was fired by a success chain of the one before it, `hops` after the first: the last of them and the
-- hop counts of the open runs. Between two hops other runs may begin and end.
pub data Lap (A : Type 0) (url : String → String) : ℕ → String → Depths → Type 0 where
  first : (run : String) (depths : Depths) → Lap A url zero run depths
  hop :
      {hops : ℕ} {run : String} {before : Depths}
      → Lap A url hops run before
      → (depths : Depths) → chain_depth run depths ≡ chain_depth run before
      → (done : Completion A) (ctx : InputContext A) (sub : Subscriber A) (f : Fired A)
      → done.run ≡ run
      → fire_edge url done ctx depths sub ≡ some f
      → (next : String) → Lap A url (suc hops) next (begin_run_depth next f.depth depths)

chain_depth-begin_run_depth :
    (run : String) (depth : ℕ) (depths : Depths)
    → 0 < depth
    → chain_depth run (begin_run_depth run depth depths) ≡ depth
unfolding chain_depth begin_run_depth
chain_depth-begin_run_depth run depth depths h =
    ground (arith, lookup-insert run run depth depths, eq_iff run run)

lap_depth :
    {A : Type 0} {url : String → String} {hops : ℕ} {run : String} {depths : Depths}
    → Lap A url hops run depths
    → (hops ≤ chain_depth run depths)
      × ((0 < hops) → chain_depth run depths ≤ max_success_chain_depth)
lap_depth (first run depths) = (omega arith, λ h. omega arith)
lap_depth {A} {url} (hop {hops} {run} lap depths same done ctx sub f e fires next) =
    let (depth, bound) = fire_edge_depth url done ctx depths sub f fires in
    let stored = chain_depth-begin_run_depth next f.depth depths (omega arith) in
    let from : chain_depth done.run depths ≡ chain_depth run depths =
      ap (λ (r : String). chain_depth r depths) e in
    (omega (arith, (lap_depth lap).0), λ h. omega arith)

-- Runs that follow one another along success chains end after at most ten hops, whatever the edges, also
-- where these form a cycle, and whatever other runs begin and end meanwhile.
pub Lap-bounded :
    {A : Type 0} {url : String → String} {hops : ℕ} {run : String} {depths : Depths}
    → Lap A url hops run depths
    → hops ≤ max_success_chain_depth
Lap-bounded {hops = zero} lap = omega arith
Lap-bounded {hops = suc n} lap =
    let (low, high) = lap_depth lap in omega (arith, high (omega arith))
