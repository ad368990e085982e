-- ===== src/Approval/Gate/Decisions.antt =====
-- pkg/approval/gate.go: approving a held task, forgetting one, and the check before every run.
use dicode_core.Prelude.{
  String, Bool, true, false, Option, none, some, ◌==◌, if◌then◌else◌, string_eq,
}
use dicode_core.Prelude.Dict.{lookup, delete}
use dicode_core.Approval.Lock.{Signer, approved, record_approval, remove}
use dicode_core.Approval.Gate.{
  Config, PendingEntry, Gate, Outside, GateError, not_pending, no_hash, hash_mismatch, empty_hash,
  arm_failed, pending_approval, lock_failed, trusted, clear_pending, is_pending, arm,
  approved_by_manual, approved_by_token,
}

module _ {T : Type 0} where
  abbrev same_hash : Option (PendingEntry T) → String → Bool
  same_hash none hash = false
  same_hash (some cur) hash = cur.hash == hash

  -- The last step of `approve`: the entry goes only if it is still of the approved hash.
  abbrev drop_pending : String → String → Gate T → Gate T
  drop_pending id hash g = if same_hash (lookup id g.pending) hash then clear_pending id g else g

module _ {T : Type 0} (signer : Signer) (out : Outside T) where
  -- `approve` on the entry that it found.
  unfoldable pub approve_entry :
      String → String → String → PendingEntry T → Gate T → Option GateError × Gate T
  approve_entry id want_hash by ent g =
      if ent.hash == ""
      then (some no_hash, g)
      else if (if want_hash == "" then false else if ent.hash == want_hash then false else true)
      then (some hash_mismatch, g)
      else (let (lock_err, lock') =
            record_approval signer out.now out.write_ok id ent.hash by ent.commit g.lock in
          let g1 = record g { lock = lock' } in
          elim lock_err [
            | some e ↦ (some (lock_failed e), g1)
            | none ↦
                let (failed, g2) = arm out ent.kinded g1 in
                if failed then (some arm_failed, g2) else (none, drop_pending id ent.hash g2)
          ])

  unfoldable pub approve_as : String → String → String → Gate T → Option GateError × Gate T
  unfolding approve_entry
  approve_as id want_hash by g = elim (lookup id g.pending) [
    | none ↦ (some not_pending, g)
    | some ent ↦ approve_entry id want_hash by ent g
  ]

  unfoldable pub approve : String → Gate T → Option GateError × Gate T
  unfolding approve_as
  approve id g = approve_as id "" approved_by_manual g

  unfoldable pub approve_if_hash : String → String → Gate T → Option GateError × Gate T
  unfolding approve_as
  approve_if_hash id hash g =
      if hash == "" then (some empty_hash, g) else approve_as id hash approved_by_token g

  unfoldable pub forget : String → Gate T → Gate T
  forget id g =
      let g1 = clear_pending id g in
      record g1 {
        admitted = delete id g1.admitted;
        lock = (remove signer out.write_ok id g1.lock).1;
      }

module _ {T : Type 0} (cfg : Config T) (out : Outside T) where
  abbrev live_hash_approved : String → T → Gate T → Option GateError
  live_hash_approved id k g = elim (out.hash_of k) [
    | none ↦ some pending_approval
    | some live ↦ if approved g.lock id live then none else some pending_approval
  ]

  -- `none` lets the run start.
  unfoldable pub fire_guard : String → Gate T → Option GateError
  unfolding is_pending
  fire_guard id g =
      if is_pending id g
      then some pending_approval
      else if trusted cfg id
      then none
      else elim (lookup id g.admitted) [
        | none ↦ some pending_approval
        | some k ↦ live_hash_approved id k g
      ]
