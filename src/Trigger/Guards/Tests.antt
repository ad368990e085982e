-- ===== src/Trigger/Guards/Tests.antt =====
-- Tests of pkg/trigger/engine_guardrails.go: the theorems at concrete guards.
use dicode_core.Prelude.{refl, [], ◌∷◌, arith, string_eq}
use dicode_core.Prelude.Dict.{lookup}
use dicode_core.Trigger.Guards.{new_chain_guards, ChainGuards}
use dicode_core.Trigger.Guards.Slots.{Counts}

new-Counts : Counts [] new_chain_guards
unfolding lookup
new-Counts = record { each = λ id. refl; total = refl }

abbrev one_held : ChainGuards
one_held = record new_chain_guards { in_flight_per_task = ("t", 1) ∷ []; in_flight_global = 1 }

one-Counts : Counts ("t" ∷ []) one_held
unfolding lookup
one-Counts = record { each = λ id. ground arith; total = refl }
