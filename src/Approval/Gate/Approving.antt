-- ===== src/Approval/Gate/Approving.antt =====
-- pkg/approval/gate.go: what `approve` records, arms and leaves held.
use text.Mathlib.TextEquality.{eq_iff}
use text.Mathlib.TextPositions.{eq_refl}
use dicode_core.Prelude.{
  String, ◌≡◌, refl, ◌≢◌, inl, inr, true, false, none, some, ◌∷◌, arith, ◌==◌, if◌then◌else◌,
  string_eq, Option-cases,
}
use dicode_core.Prelude.Dict.{lookup, lookup-delete_self}
use dicode_core.Approval.Lock.{Signer, approved, record_approval, write_failed}
use dicode_core.Approval.Lock.Records.{
  approved-record_approval, approved-new, record_approval-write_failed,
}
use dicode_core.Approval.Gate.{
  Kinded, Config, PendingEntry, Gate, Outside, hash_mismatch, lock_failed, admit, hash_or_empty,
  is_pending, approved_by_token, approved_by_manual,
}
use dicode_core.Approval.Gate.Decisions.{approve_entry, approve_as, approve, approve_if_hash}
use dicode_core.Approval.Gate.Admission.{armed_iff}

module _ {T : Type 0} (signer : Signer) (out : Outside T) (id : String) where
  -- What a successful approval of an entry does.
  record Done (by : String) (ent : PendingEntry T) (g g' : Gate T) : Type 0 where
    pub hashed : ent.hash ≢ ""
    pub armed : g'.armed ≡ ent.kinded ∷ g.armed
    pub lock :
        g'.lock ≡ (record_approval signer out.now out.write_ok id ent.hash by ent.commit g.lock).1
    pub idle : lookup id g'.pending ≡ none
    pub admitted : g'.admitted ≡ g.admitted

  approve_entry-Done :
      (want by : String) (ent : PendingEntry T) (g : Gate T)
      → lookup id g.pending ≡ some ent
      → (approve_entry signer out id want by ent g).0 ≡ none
      → Done by ent g (approve_entry signer out id want by ent g).1
  unfolding approve_entry
  approve_entry-Done want by ent g found h = record {
    hashed = ground (arith, eq_iff ent.hash "");
    armed = ground arith;
    lock = ground arith;
    idle = ground (arith, eq_refl ent.hash, lookup-delete_self id g.pending);
    admitted = ground arith;
  }

  approve_entry-hash :
      (want by : String) (ent : PendingEntry T) (g : Gate T)
      → want ≢ ""
      → (approve_entry signer out id want by ent g).0 ≡ none
      → ent.hash ≡ want
  unfolding approve_entry
  approve_entry-hash want by ent g ne h =
      ground (arith, eq_iff want "", eq_iff ent.hash "", eq_iff ent.hash want)

  -- A successful call of `approve_if_hash` is a successful `approve_entry` on what was held.
  approve_if_hash-found :
      (hash : String) (g : Gate T)
      → (approve_if_hash signer out id hash g).0 ≡ none
      → (ent : PendingEntry T) × (lookup id g.pending ≡ some ent)
        × (hash ≢ "")
        × (approve_if_hash signer out id hash g
            ≡ approve_entry signer out id hash approved_by_token ent g)
  unfolding approve_if_hash approve_as
  approve_if_hash-found hash g ok = elim (Option-cases (lookup id g.pending)) [
    | inl e ↦ absurd (ground (arith, e))
    | inr (ent, e) ↦ (ent, e, ground (arith, eq_iff hash ""), ground (arith, e, eq_iff hash ""))
  ]

  -- The one-click link approves the version that was reviewed and no other: it succeeds only on a
  -- held entry of that hash, arms that entry's task, and records that hash for that task alone.
  pub approve_if_hash_lem :
      (hash : String) (g : Gate T) (j h : String)
      → (approve_if_hash signer out id hash g).0 ≡ none
      → let g' = (approve_if_hash signer out id hash g).1 in
        (ent : PendingEntry T) × (lookup id g.pending ≡ some ent)
        × (ent.hash ≡ hash)
        × (g'.armed ≡ ent.kinded ∷ g.armed)
        × (lookup id g'.pending ≡ none)
        × (approved g'.lock j h ≡ (if id == j then hash == h else approved g.lock j h))
  approve_if_hash_lem hash g j h ok =
      let (ent, found, ne, same) = approve_if_hash-found hash g ok in
      let ok' : (approve_entry signer out id hash approved_by_token ent g).0 ≡ none =
        rw same at ok in
      let d = approve_entry-Done hash approved_by_token ent g found ok' in
      let eq = approve_entry-hash hash approved_by_token ent g ne ok' in
      rw same (
        ent,
        found,
        eq,
        d.armed,
        d.idle,
        rw (d.lock, ← eq)
            (approved-record_approval signer out.now out.write_ok id ent.hash approved_by_token
              ent.commit g.lock j h d.hashed),
      )

  -- An approval that a reviewer gave for another version than the one that is held, both with a hash
  -- that is not empty, is refused and changes nothing.
  pub approve_if_hash-mismatch :
      (hash : String) (g : Gate T) (ent : PendingEntry T)
      → lookup id g.pending ≡ some ent
      → ent.hash ≢ ""
      → hash ≢ ""
      → ent.hash ≢ hash
      → approve_if_hash signer out id hash g ≡ (some hash_mismatch, g)
  unfolding approve_if_hash approve_as approve_entry
  approve_if_hash-mismatch hash g ent found n1 n2 ne =
      ground (arith, eq_iff ent.hash "", eq_iff hash "", eq_iff ent.hash hash)

  approve-write_failed :
      (g : Gate T) (ent : PendingEntry T)
      → out.write_ok ≡ false
      → lookup id g.pending ≡ some ent
      → ent.hash ≢ ""
      → approved g.lock id ent.hash ≡ false
      → approve signer out id g ≡ (
        some (lock_failed write_failed),
        record g {
          lock =
              (record_approval signer out.now false id ent.hash approved_by_manual ent.commit
                g.lock).1;
        },
      )
  unfolding approve approve_as approve_entry
  approve-write_failed g ent w found ne new = ground (
    arith,
    eq_iff ent.hash "",
    (record_approval-write_failed signer out.now 0 id ent.hash approved_by_manual ent.commit g.lock
        ne new).0,
  )

-- For a held task whose content was not approved before and still hashes to what it did: an
-- approval whose write of the lock file fails is reported as failed, and the task stays held.
-- Yet the next sync of the same content arms the task: the record in memory was not taken back.
pub approve-write_failed-admit :
    {T : Type 0} ⦃kd : Kinded T⦄ (signer : Signer) (cfg : Config T) (out later : Outside T) (k : T)
    (g : Gate T) (ent : PendingEntry T)
    → out.write_ok ≡ false
    → lookup (kd.task_id k) g.pending ≡ some ent
    → ent.hash ≢ ""
    → approved g.lock (kd.task_id k) ent.hash ≡ false
    → later.hash_of k ≡ some ent.hash
    → let (e, g') = approve signer out (kd.task_id k) g in
      (e ≡ some (lock_failed write_failed))
      × (is_pending (kd.task_id k) g' ≡ true)
      × ((admit signer cfg later k g').0.armed ≡ true)
unfolding is_pending
approve-write_failed-admit {T} ⦃kd⦄ signer cfg out later k g ent w found ne new hashed =
    let id = kd.task_id k in
    rw (approve-write_failed signer out id g ent w found ne new) (
      refl,
      rw (found, is_pending) refl,
      (armed_iff signer cfg later k _).1 (
          inr (
            inl (
              rw (hashed, hash_or_empty)
                (approved-new signer out.now false id ent.hash approved_by_manual ent.commit g.lock
                  ne)))),
    )
