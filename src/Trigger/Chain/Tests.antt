-- ===== src/Trigger/Chain/Tests.antt =====
-- Tests of pkg/trigger/chain.go: the theorems at concrete registries, edges and guards.
use text.Mathlib.TextEquality.{eq_iff}
use dicode_core.Prelude.{
  ℕ, ◌≤◌, String, ◌≡◌, refl, ◌↔◌, Bool, true, false, none, some, [], ◌∷◌, arith, if◌then◌else◌,
  string_eq, ne_of,
}
use dicode_core.Prelude.Dict.{lookup, insert}
use dicode_core.Task.InputRef.{plain, InputContext, resolve_input_output_map}
use dicode_core.Trigger.Chain.{
  ChainTrigger, ChainTask, check_success_chain_cycle, has_success_chain_cycle, register_task,
  is_success_chain, success_targets, dfs,
}
use dicode_core.Trigger.Chain.Walks.{Reaches, here, step, Acyclic}
use dicode_core.Trigger.Chain.Cycles.{
  declared, with_edge, has_success_chain_cycle_lem, check_success_chain_cycle-Acyclic,
}
use dicode_core.Trigger.Chain.Input.{
  Completion, Entry, build_chain_payload, stamped, or_else, as_param, lookup-build_chain_payload,
}
use dicode_core.Trigger.Chain.Edges.{
  Subscriber, Fired, Lap, first, hop, Lap-bounded, fire_edge, max_success_chain_depth,
  begin_run_depth,
}
use dicode_core.Trigger.Chain.Failure.{
  ChainEngine, FailureSpec, is_fired, fire_failure_chain, without_operator_fields,
}
use dicode_core.Trigger.Chain.Failure.Counting.{fire_failure_chain-Counts}
use dicode_core.Trigger.Chain.Failure.Storms.{fire_failure_chain-own_block}
use dicode_core.Trigger.Guards.{new_chain_guards}
use dicode_core.Trigger.Guards.Slots.{Counts}

abbrev task_b : ChainTask
task_b = record { id = "b"; chain = some (record { from = "a"; on = "" }) }

abbrev task_c : ChainTask
task_c = record { id = "c"; chain = some (record { from = "b"; on = "always" }) }

abbrev task_a : ChainTask
task_a = record { id = "a"; chain = some (record { from = "c"; on = "success" }) }

cycle_found : has_success_chain_cycle (task_b ∷ task_c ∷ task_a ∷ []) "a" "c" ≡ some true
unfolding has_success_chain_cycle lookup insert
cycle_found = refl

no_cycle : has_success_chain_cycle (task_b ∷ task_c ∷ []) "c" "b" ≡ some false
unfolding has_success_chain_cycle lookup insert
no_cycle = refl

has_success_chain_cycle_lem_example :
    (b : Bool) × (has_success_chain_cycle (task_b ∷ task_c ∷ task_a ∷ []) "a" "c" ≡ some b)
    × ((b ≡ true) ↔ Reaches (with_edge "c" "a" (declared (task_b ∷ task_c ∷ task_a ∷ []))) "a" "c")
has_success_chain_cycle_lem_example =
    has_success_chain_cycle_lem (task_b ∷ task_c ∷ task_a ∷ []) "a" "c"

b_from_a : (x y : String) → declared (task_b ∷ []) x y ≡ true → (x ≡ "a") × (y ≡ "b")
unfolding is_success_chain
b_from_a x y h = (ground (arith, eq_iff "a" x), ground (arith, eq_iff "b" y))

ends_at_b : {x y : String} → Reaches (declared (task_b ∷ [])) x y → x ≡ "b" → y ≡ "b"
ends_at_b here e = e
ends_at_b (step {y} {z} r h) e = (b_from_a y z h).1

one_task-Acyclic : Acyclic (declared (task_b ∷ []))
one_task-Acyclic x y h r =
    let (a, b) = b_from_a x y h in ground (arith, ends_at_b r b, ne_of "a" "b" refl)

check_success_chain_cycle-Acyclic_example :
    ((b : Bool) × (check_success_chain_cycle (register_task task_c (task_b ∷ [])) task_c ≡ some b))
    × ((check_success_chain_cycle (register_task task_c (task_b ∷ [])) task_c ≡ some true)
        ↔ Acyclic (declared (register_task task_c (task_b ∷ []))))
check_success_chain_cycle-Acyclic_example =
    check_success_chain_cycle-Acyclic (task_b ∷ []) task_c one_task-Acyclic

abbrev upstream_run : Completion ℕ
upstream_run = record { task = "ops/deploy"; run = "r1"; status = "failure"; output = plain "boom" }

abbrev on_failure : Subscriber ℕ
on_failure = record {
  id = "report";
  edge = some (record { from = "ops/deploy"; on = "failure"; params = []; overridden = none });
}

abbrev no_link : String → String
no_link run = ""

abbrev no_input : InputContext ℕ
no_input = record { output = plain "boom"; params = none }

abbrev report_fired : Fired ℕ
report_fired = record {
  target = "report";
  parent = "r1";
  input = dicode_core.Trigger.Chain.Input.raw (plain "boom");
  depth = 1;
}

report_fires : fire_edge no_link upstream_run no_input [] on_failure ≡ some report_fired
unfolding fire_edge lookup resolve_input_output_map
    dicode_core.Trigger.Chain.Input.build_chain_input
report_fires = refl

one_hop : Lap ℕ no_link 1 "r2" (begin_run_depth "r2" 1 [])
one_hop =
    hop (first "r1" []) [] refl upstream_run no_input on_failure report_fired refl report_fires "r2"

Lap-bounded_example : 1 ≤ max_success_chain_depth
Lap-bounded_example = Lap-bounded one_hop

abbrev fix_spec : FailureSpec ℕ
fix_spec = record {
  task = "fix";
  params = [];
  max_depth = 0;
  cooldown = 0;
  max_concurrent = 0;
  max_concurrent_global = 0;
  storm = record { rate = 1; window = 1_000; suppress = 1_000 };
}

abbrev engine : ChainEngine ℕ
engine = record {
  tasks =
      ("ops/deploy", none)
      ∷ ("fix", none)
      ∷ ("ops/test", some (without_operator_fields fix_spec))
      ∷ [];
  defaults = fix_spec;
  sources = [];
  depths = [];
  url = no_link;
}

new-Counts : Counts [] new_chain_guards
unfolding lookup
new-Counts = record { each = λ id. refl; total = refl }

fire_failure_chain-Counts_example :
    let (outcome, g') = fire_failure_chain engine upstream_run no_input true 50 new_chain_guards in
    Counts (if is_fired outcome then "ops/deploy" ∷ [] else []) g'
fire_failure_chain-Counts_example =
    fire_failure_chain-Counts engine upstream_run no_input true 50 [] new_chain_guards new-Counts

abbrev test_run : Completion ℕ
test_run = record upstream_run { task = "ops/test" }

own_block : lookup "ops/test" engine.tasks ≡ some (some (without_operator_fields fix_spec))
unfolding lookup
own_block = refl

fire_failure_chain-own_block_example :
    (fire_failure_chain engine test_run no_input true 50 new_chain_guards).1.storm_fires ≡ []
fire_failure_chain-own_block_example =
    fire_failure_chain-own_block engine test_run no_input true 50 new_chain_guards fix_spec
      own_block
