-- ===== src/Trigger/Chain.antt =====
-- pkg/trigger/chain.go: the edges that trigger.chain declares, and the search for a cycle in them.
-- The registry is the list of its tasks' names and chain triggers, in the order of the map's iteration.
pub mod Walks
pub mod Search
pub mod Cycles
pub mod Input
pub mod Edges
pub mod Failure
mod Tests
use dicode_core.Prelude.{
  ℕ, zero, suc, ◌+◌, String, Bool, true, false, ◌&&◌, ◌||◌, not, Option, none, some, List, [], ◌∷◌,
  ◌++◌, length, contains, ◌==◌, if◌then◌else◌, string_eq,
}
use dicode_core.Prelude.Dict.{lookup, insert}

pub record ChainTrigger : Type 0 where
  pub from : String
  pub on : String

-- What the cycle check reads of a task or a pipeline.
pub record ChainTask : Type 0 where
  pub id : String
  pub chain : Option ChainTrigger

unfoldable pub chain_on : ChainTrigger → String
chain_on c = if c.on == "" then "success" else c.on

-- Whether the edge fires on success.
unfoldable pub is_success_chain : ChainTrigger → Bool
unfolding chain_on
is_success_chain c = chain_on c == "success" || chain_on c == "always"

abbrev pub Targets : Type 0
Targets = List (String × List String)

-- `successTargets[from]`
abbrev pub names_or_nil : Option (List String) → List String
names_or_nil none = []
names_or_nil (some ids) = ids

unfoldable pub targets_of : String → Targets → List String
targets_of from m = names_or_nil (lookup from m)

-- `successTargets[from] = append(successTargets[from], id)`
unfoldable pub add_target : String → String → Targets → Targets
unfolding targets_of
add_target from id m = insert from (targets_of from m ++ id ∷ []) m

unfoldable pub add_edge : ChainTask → Targets → Targets
unfolding add_target is_success_chain
add_edge k m = elim k.chain [
  | none ↦ m
  | some c ↦ if is_success_chain c then add_target c.from k.id m else m
]

unfoldable pub success_targets : List ChainTask → Targets → Targets
unfolding add_edge
success_targets [] m = m
success_targets (k ∷ rest) m = success_targets rest (add_edge k m)

abbrev pub Searched : Type 0
Searched = Option (Bool × List String)

-- The loop over the neighbours; `call` is the search one level down. `none`: out of fuel.
unfoldable pub each : (String → List String → Searched) → List String → List String → Searched
each call [] visited = some (false, visited)
each call (next ∷ rest) visited = elim (call next visited) [
  | none ↦ none
  | some (true, visited') ↦ some (true, visited')
  | some (false, visited') ↦ each call rest visited'
]

-- `visited` is the map that the closure shares with its callers.
unfoldable pub dfs : (String → List String) → String → ℕ → String → List String → Searched
unfolding each
dfs next from zero current visited = none
dfs next from (suc fuel) current visited =
    let deeper = each (dfs next from fuel) (next current) (current ∷ visited) in
    if current == from
    then some (true, visited)
    else if contains current visited
    then some (false, visited)
    else deeper

abbrev pub found : Searched → Option Bool
found none = none
found (some (b, visited)) = some b

-- The depth is at most one more than the number of names, the registry's and the new one.
unfoldable pub has_success_chain_cycle : List ChainTask → String → String → Option Bool
unfolding success_targets dfs
has_success_chain_cycle tasks new_id from =
    let targets = add_target from new_id (success_targets tasks []) in
    found (dfs (λ current. targets_of current targets) from (length tasks + 2) new_id [])

-- Whether the registration is accepted.
unfoldable pub check_success_chain_cycle : List ChainTask → ChainTask → Option Bool
unfolding has_success_chain_cycle is_success_chain
check_success_chain_cycle tasks k = elim k.chain [
  | none ↦ some true
  | some c ↦
      if not (is_success_chain c)
      then some true
      else elim (has_success_chain_cycle tasks k.id c.from) [
        | none ↦ none
        | some cycle ↦ some (not cycle)
      ]
]

-- `delete(r.tasks, id)` and `r.tasks[id] = k`: a map has no order, so the new entry stands first.
unfoldable pub unregister_task : String → List ChainTask → List ChainTask
unregister_task id [] = []
unregister_task id (k ∷ rest) =
    let kept = unregister_task id rest in if k.id == id then kept else k ∷ kept

unfoldable pub register_task : ChainTask → List ChainTask → List ChainTask
unfolding unregister_task
register_task k tasks = k ∷ unregister_task k.id tasks
