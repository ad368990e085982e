-- ===== src/Trigger/Slots/Tests.antt =====
-- Tests of pkg/trigger/daemon_slot.go: the theorems at concrete slots.
use dicode_core.Prelude.{◌≡◌, refl, true, some, [], ◌∷◌, arith, string_eq}
use dicode_core.Prelude.Dict.{lookup, insert, delete}
use dicode_core.Trigger.Slots.{
  slot_key_eq, DaemonSlot, Slots, new_slots, daemon_key, claim_key, evict, owned, runs, attach,
}
use dicode_core.Trigger.Slots.Stale.{
  claim_op, evict_op, attach_op, run_ops, IsInert, IsStale, IsStale-IsInert,
}
use dicode_core.Trigger.Slots.Claims.{IsWf, run_ops_new-IsWf}

-- The handle of the first claim.
abbrev first : DaemonSlot
first = record { k = daemon_key "d"; e = 0; run = "" }

-- The slots after a claim of "d", and after its eviction too.
abbrev claimed : Slots
claimed = run_ops (claim_op (daemon_key "d") ∷ attach_op (some first) "r1" ∷ []) new_slots

abbrev evicted_slots : Slots
evicted_slots = run_ops (evict_op "d" ∷ []) claimed

is_stale : IsStale first evicted_slots
unfolding run_ops claim_key attach evict owned lookup insert delete
is_stale = (omega arith, refl)

IsStale-IsInert_example : IsInert first (run_ops (claim_op (daemon_key "d") ∷ []) evicted_slots)
IsStale-IsInert_example =
    IsStale-IsInert first (claim_op (daemon_key "d") ∷ []) evicted_slots is_stale

claims : (claim_key (daemon_key "d") new_slots).0 ≡ some first
unfolding claim_key lookup
claims = refl

owns : owned first claimed ≡ true
unfolding run_ops claim_key attach owned lookup insert
owns = refl

claimed-IsWf : IsWf claimed
claimed-IsWf = run_ops_new-IsWf (claim_op (daemon_key "d") ∷ attach_op (some first) "r1" ∷ [])

runs_of_claimed : runs claimed ≡ ("d", "r1") ∷ []
unfolding runs run_ops claim_key attach owned lookup insert
runs_of_claimed = refl
