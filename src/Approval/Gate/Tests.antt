-- ===== src/Approval/Gate/Tests.antt =====
-- Tests of pkg/approval/gate.go: the theorems at concrete gates.
use dicode_core.Prelude.{ne_of, ◌≡◌, refl, true, false, none, some, [], ◌∷◌, ◌↔◌, string_eq}
use dicode_core.Prelude.Dict.{lookup}
use dicode_core.Approval.Samples.{
  sample_signer, approved_a, SampleTask, sample_kinded, sample_config, sample_outside, held_a,
  sample_gate,
}
use dicode_core.Approval.Lock.{approved, record_approval, write_failed}
use dicode_core.Approval.Gate.{
  Outside, Gate, PendingEntry, admit, trusted, pending_approval, lock_failed, is_pending,
}
use dicode_core.Approval.Gate.Decisions.{fire_guard, approve, approve_if_hash}
use dicode_core.Approval.Gate.Firing.{MayFire, fire_guard_iff}
use dicode_core.Approval.Gate.Admission.{fire_guard-admit_armed}
use dicode_core.Approval.Gate.Approving.{approve_if_hash_lem, approve-write_failed-admit}

abbrev out : Outside SampleTask
out = sample_outside true

fire_guard_iff_example :
    (fire_guard sample_config out "src/a" (sample_gate approved_a []) ≡ none)
    ↔ MayFire sample_config out "src/a" (sample_gate approved_a [])
fire_guard_iff_example = fire_guard_iff sample_config out "src/a" (sample_gate approved_a [])

fires : fire_guard sample_config out "src/a" (sample_gate approved_a []) ≡ none
unfolding fire_guard trusted approved lookup
fires = refl

untrusted_a : trusted sample_config "src/a" ≡ false
unfolding trusted
untrusted_a = refl

-- The task with its content changed to h2.
abbrev after_edit : SampleTask
after_edit = ("src/a", "h2")

held :
    (admit sample_signer sample_config out after_edit (sample_gate approved_a [])).0.armed ≡ false
unfolding admit trusted approved lookup
held = refl

armed :
    (admit sample_signer sample_config out ("src/a", "h1") (sample_gate approved_a [])).0.armed
    ≡ true
unfolding admit trusted approved lookup
armed = refl

abbrev edited : Outside SampleTask
edited = record out { hash_of = λ k. some "h2" }

fire_guard-admit_armed_example :
    fire_guard sample_config edited "src/a"
      (admit sample_signer sample_config out ("src/a", "h1") (sample_gate approved_a [])).1
    ≡ some pending_approval
fire_guard-admit_armed_example =
    fire_guard-admit_armed sample_signer sample_config out edited ("src/a", "h1")
      (sample_gate approved_a []) "h1" "h2" armed untrusted_a refl (ne_of "h1" "" refl) refl

abbrev holding_a : Gate SampleTask
holding_a = sample_gate [] (("src/a", held_a) ∷ [])

found_a : lookup "src/a" holding_a.pending ≡ some held_a
unfolding lookup
found_a = refl

approves : (approve_if_hash sample_signer out "src/a" "h1" holding_a).0 ≡ none
unfolding approve_if_hash record_approval approved lookup
approves = refl

approve_if_hash_lem_example :
    let g' = (approve_if_hash sample_signer out "src/a" "h1" holding_a).1 in
    (ent : PendingEntry SampleTask) × (lookup "src/a" holding_a.pending ≡ some ent)
    × (ent.hash ≡ "h1")
    × (g'.armed ≡ ent.kinded ∷ [])
    × (lookup "src/a" g'.pending ≡ none)
    × (approved g'.lock "src/a" "h1" ≡ true)
approve_if_hash_lem_example =
    approve_if_hash_lem sample_signer out "src/a" "h1" holding_a "src/a" "h1" approves

new_a : approved holding_a.lock "src/a" "h1" ≡ false
unfolding approved lookup
new_a = refl

approve-write_failed-admit_example :
    let (e, g') = approve sample_signer (sample_outside false) "src/a" holding_a in
    (e ≡ some (lock_failed write_failed))
    × (is_pending "src/a" g' ≡ true)
    × ((admit sample_signer sample_config out ("src/a", "h1") g').0.armed ≡ true)
approve-write_failed-admit_example =
    approve-write_failed-admit sample_signer sample_config (sample_outside false) out
      ("src/a", "h1") holding_a held_a refl found_a (ne_of "h1" "" refl) new_a refl
