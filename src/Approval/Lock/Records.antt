-- ===== src/Approval/Lock/Records.antt =====
-- pkg/approval/lock.go: what Record, Remove and Approved do to the records.
use text.Mathlib.TextEquality.{eq_iff}
use text.Mathlib.TextPositions.{eq_refl}
use dicode_core.Prelude.{
  ℕ, String, ◌≡◌, ◌≢◌, Bool, true, false, none, some, arith, ◌==◌, if◌then◌else◌, string_eq,
  Option-cases, Bool-cases, inl, inr,
}
use dicode_core.Prelude.Dict.{lookup, lookup-insert, lookup-delete}
use dicode_core.Approval.Lock.{
  Signer, Lock, write_failed, approved, record_approval, remove, new_record,
}

-- A task is approved for one hash at most.
pub approved-eq :
    (l : Lock) (id h h' : String) → approved l id h ≡ true → approved l id h' ≡ (h == h')
unfolding approved
approved-eq l id h h' ok = elim (Option-cases (lookup id l.tasks)) [
  | inl e ↦ ground (arith, e)
  | inr (r, e) ↦
      ground (arith, e, eq_iff h "", eq_iff h' "", eq_iff h h', eq_iff r.hash h, eq_iff r.hash h')
]

approved-empty : (l : Lock) (id hash : String) → (hash == "") ≡ true → approved l id hash ≡ false
unfolding approved
approved-empty l id hash e = rw e

module _ (signer : Signer) where
  -- After Record of a hash that is not empty, whether the file was written or not, the task is
  -- approved for that hash and no other, and every other task as before.
  pub approved-record_approval :
      (now : ℕ) (w : Bool) (id hash by commit : String) (l : Lock) (j h : String)
      → hash ≢ ""
      → approved (record_approval signer now w id hash by commit l).1 j h
        ≡ (if id == j then hash == h else approved l j h)
  unfolding record_approval approved
  approved-record_approval now w id hash by commit l j h ne =
      elim (Option-cases (lookup id l.tasks)) [
        | inl e ↦ ground (
          arith,
          e,
          eq_iff hash "",
          eq_iff h "",
          eq_iff hash h,
          eq_iff id j,
          lookup-insert id j (new_record now hash by commit) l.tasks,
        )
        | inr (r, e) ↦ ground (
          arith,
          e,
          eq_iff hash "",
          eq_iff h "",
          eq_iff hash h,
          eq_iff id j,
          eq_iff r.hash hash,
          eq_iff r.hash h,
          lookup-insert id j (new_record now hash by commit) l.tasks,
        )
      ]

  pub approved-remove :
      (w : Bool) (id : String) (l : Lock) (j h : String)
      → approved (remove signer w id l).1 j h ≡ (if id == j then false else approved l j h)
  unfolding remove approved
  approved-remove w id l j h = ground (arith, eq_iff id j, lookup-delete id j l.tasks)

  pub approved-new :
      (now : ℕ) (w : Bool) (id hash by commit : String) (l : Lock)
      → hash ≢ ""
      → approved (record_approval signer now w id hash by commit l).1 id hash ≡ true
  approved-new now w id hash by commit l ne = ground (
    arith,
    eq_refl id,
    eq_refl hash,
    approved-record_approval now w id hash by commit l id hash ne,
  )

  -- `Record` of what is recorded already does nothing.
  pub record_approval_idle :
      (now : ℕ) (w : Bool) (id hash by commit : String) (l : Lock)
      → approved l id hash ≡ true
      → record_approval signer now w id hash by commit l ≡ (none, l)
  unfolding record_approval
  record_approval_idle now w id hash by commit l h = elim (Bool-cases (hash == "")) [
    | inl e ↦ cc (h, approved-empty l id hash e)
    | inr e ↦ rw (e, h)
  ]

  -- A Record of a hash that is not empty and not approved yet, whose write fails, says so, but the approval stands in memory and the file is as it was;
  -- the same call again reports success, and writes nothing although the disk works.
  pub record_approval-write_failed :
      (now later : ℕ) (id hash by commit : String) (l : Lock)
      → hash ≢ ""
      → approved l id hash ≡ false
      → let (e, l') = record_approval signer now false id hash by commit l in
        (e ≡ some write_failed)
        × (l'.disk ≡ l.disk)
        × (approved l' id hash ≡ true)
        × (record_approval signer later true id hash by commit l' ≡ (none, l'))
  unfolding record_approval
  record_approval-write_failed now later id hash by commit l ne new = (
    ground (arith, eq_iff hash ""),
    ground (arith, eq_iff hash ""),
    approved-new now false id hash by commit l ne,
    record_approval_idle later true id hash by commit _
        (approved-new now false id hash by commit l ne),
  )
