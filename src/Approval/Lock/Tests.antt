-- ===== src/Approval/Lock/Tests.antt =====
-- Tests of pkg/approval/lock.go: the theorems at concrete files and records.
use dicode_core.Prelude.{ne_of, ◌≡◌, refl, true, false, some, inr, arith}
use dicode_core.Prelude.Dict.{lookup}
use dicode_core.Approval.Samples.{sample_signer, sample_lock, approved_a}
use dicode_core.Approval.Lock.{
  LockFile, Lock, loaded, parsed, approved, load_signed_lock, as_tampered, fresh,
}
use dicode_core.Approval.Lock.Integrity.{load_signed_lock-tampered, load_signed_lock-authentic}

-- A file that was signed under another key.
abbrev forged : LockFile
forged = record { version = 3; mac = "b1"; bootstrapped = true; tasks = approved_a }

abbrev genuine : LockFile
genuine = record { version = 3; mac = "a1"; bootstrapped = true; tasks = approved_a }

load_signed_lock-tampered_example :
    load_signed_lock sample_signer (some "k1") true (parsed forged)
    ≡ loaded (as_tampered (fresh (some "k1") approved_a (some forged)))
load_signed_lock-tampered_example =
    load_signed_lock-tampered sample_signer "k1" true forged
      (λ h. ground (arith, h, ne_of "b1" "" refl, ne_of "a1" "b1" refl))

load_signed_lock-authentic_example :
    (l : Lock) × (load_signed_lock sample_signer (some "k1") true (parsed genuine) ≡ loaded l)
    × (l.tampered ≡ false)
    × (l.tasks ≡ approved_a)
    × (l.disk ≡ some genuine)
load_signed_lock-authentic_example =
    load_signed_lock-authentic sample_signer "k1" genuine
      (inr (inr (ne_of "a1" "" refl, refl, refl)))

loaded_genuine :
    load_signed_lock sample_signer (some "k1") true (parsed genuine)
    ≡ loaded (record (fresh (some "k1") approved_a (some genuine)) { bootstrapped = true })
unfolding load_signed_lock
loaded_genuine = refl

not_h2 : approved (sample_lock approved_a) "src/a" "h2" ≡ false
unfolding approved lookup
not_h2 = refl
