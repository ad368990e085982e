-- ===== src/Trigger/Guards.antt =====
-- pkg/trigger/engine_guardrails.go: cooldown, concurrency caps and the storm breaker for
-- on_failure_chain runs. Times and durations are nanoseconds; a negative duration or cap behaves as 0.
pub mod Slots
pub mod Storm
mod Tests
use dicode_core.Prelude.{
  ℕ, suc, ◌+◌, ◌-◌, String, Bool, true, false, ◌||◌, Option, none, some, List, [], ◌∷◌, ◌++◌,
  length, filter, ltb, leb, if◌then◌else◌, string_eq,
}
use dicode_core.Prelude.Dict.{lookup, insert, delete}

pub record ChainGuards : Type 0 where
  pub last_fire : List (String × ℕ)
  pub in_flight_per_task : List (String × ℕ)
  pub in_flight_global : ℕ
  pub storm_fires : List (String × List ℕ)
  pub storm_suppressed_until : List (String × ℕ)

abbrev pub new_chain_guards : ChainGuards
new_chain_guards = record {
  last_fire = [];
  in_flight_per_task = [];
  in_flight_global = 0;
  storm_fires = [];
  storm_suppressed_until = [];
}

unfoldable pub record_chain_fire : String → ℕ → ChainGuards → ChainGuards
record_chain_fire id now g = record g { last_fire = insert id now g.last_fire }

unfoldable pub cooldown_active : String → ℕ → ℕ → ChainGuards → Bool
cooldown_active id cooldown now g =
    if leb cooldown 0
    then false
    else elim (lookup id g.last_fire) [ none ↦ false | some last ↦ ltb now (last + cooldown) ]

-- `m[id]`, 0 where there is none.
abbrev pub count_or_zero : Option ℕ → ℕ
count_or_zero none = 0
count_or_zero (some n) = n

abbrev pub per_task : String → ChainGuards → ℕ
per_task id g = count_or_zero (lookup id g.in_flight_per_task)

abbrev pub or_default : ℕ → ℕ → ℕ
or_default cap default = if leb cap 0 then default else cap

unfoldable pub acquire_slot : String → ℕ → ℕ → ChainGuards → Bool × ChainGuards
acquire_slot id per_task_cap global_cap g =
    if leb (or_default per_task_cap 1) (per_task id g)
    then (false, g)
    else if leb (or_default global_cap 3) g.in_flight_global
    then (false, g)
    else (
      true,
      record g {
        in_flight_per_task = insert id (per_task id g + 1) g.in_flight_per_task;
        in_flight_global = g.in_flight_global + 1;
      },
    )

unfoldable pub release_slot : String → ChainGuards → ChainGuards
release_slot id g =
    let g' =
      if ltb 0 (per_task id g)
      then record g { in_flight_per_task = insert id (per_task id g - 1) g.in_flight_per_task }
      else g in
    if ltb 0 g'.in_flight_global
    then record g' { in_flight_global = g'.in_flight_global - 1 }
    else g'

abbrev pub fires_of : Option (List ℕ) → List ℕ
fires_of none = []
fires_of (some ts) = ts

-- `t.After(now.Add(-window))`
abbrev pub in_window : ℕ → ℕ → ℕ → Bool
in_window now window t = ltb now (t + window)

unfoldable pub observe_chain_fire : String → ℕ → ℕ → ℕ → ℕ → ChainGuards → ChainGuards
observe_chain_fire scope rate window suppress now g =
    if leb rate 0 || leb window 0
    then g
    else (let pruned =
          filter (in_window now window) (fires_of (lookup scope g.storm_fires)) ++ now ∷ [] in
        let g' = record g { storm_fires = insert scope pruned g.storm_fires } in
        if ltb rate (length pruned)
        then record g' {
          storm_suppressed_until = insert scope (now + suppress) g'.storm_suppressed_until;
        }
        else g')

unfoldable pub storm_suppressed : String → ℕ → ChainGuards → Bool × ChainGuards
storm_suppressed scope now g = elim (lookup scope g.storm_suppressed_until) [
  | none ↦ (false, g)
  | some until ↦
      if ltb until now
      then (false, record g { storm_suppressed_until = delete scope g.storm_suppressed_until })
      else (true, g)
]
