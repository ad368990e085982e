-- ===== src/Registry/Runs/Resumed.antt =====
-- pkg/trigger/resume.go: when ResumeRun continues a run, and what it leaves behind when it refuses.
use dicode_core.Prelude.{
  ℕ, String, ◌≡◌, refl, subst, Bool, true, false, not, ◌&&◌, Option, none, some, ltb, arith,
  string_eq, Bool-cases, Option-cases, inl, inr,
}
use dicode_core.Prelude.Dict.{lookup, lookup-insert_self}
use dicode_core.Registry.Runs.{
  resumed, is_suspended, Run, Runs, Marked, marked, run_not_found, run_not_suspended, update_row,
  mark_run_resumed, get_run_by_resume_token, Outside, Resumption, refused, expired, continues,
  spawn_failed, consumed, resume_run,
}
use dicode_core.Registry.Runs.Once.{is_marked, marked_lem, marked_none}

abbrev pub continues_with : Resumption → Option String
continues_with (refused why) = none
continues_with expired = none
continues_with (continues id) = some id
continues_with (spawn_failed id) = none

abbrev pub is_refused : Resumption → Bool
is_refused (refused why) = true
is_refused _ = false

all_hold :
    (a b c d e f : Bool)
    → (a && not b && c && d && e && f) ≡ true
    → (a ≡ true) × (b ≡ false) × (c ≡ true) × (d ≡ true) × (e ≡ true) × (f ≡ true)
all_hold true false true true true true h = (refl, refl, refl, refl, refl, refl)
all_hold a b c d e f h = absurd (ground (arith, h))

module _ {R : Type 0} where
  mark-unmarked :
      (id : String) (now : ℕ) (runs : Runs R)
      → is_marked (mark_run_resumed id now runs).0 ≡ false
      → (mark_run_resumed id now runs).1 ≡ runs
  unfolding mark_run_resumed update_row
  mark-unmarked id now runs m = elim (Option-cases (lookup id runs)) [
    | inl e ↦ rw (mark_run_resumed, update_row, e) refl
    | inr (r, e) ↦
        let g : is_suspended r.status ≡ false = ground (arith, m, marked_lem id now runs r e) in
        rw (mark_run_resumed, update_row, e, g) refl
  ]

  consumed-table :
      (spawns : Bool) (id : String) (p : Marked × Runs R) → (consumed spawns id p).1 ≡ p.1
  consumed-table spawns id (marked, rs) = refl
  consumed-table spawns id (run_not_found, rs) = refl
  consumed-table spawns id (run_not_suspended, rs) = refl

  consumed-continues :
      (spawns : Bool) (id id' : String) (p : Marked × Runs R)
      → continues_with (consumed spawns id p).0 ≡ some id'
      → (is_marked p.0 ≡ true) × (id ≡ id')
  consumed-continues true id id' (marked, rs) h = (refl, ground (arith, h))
  consumed-continues false id id' (marked, rs) h = absurd (ground (arith, h))
  consumed-continues spawns id id' (run_not_found, rs) h = absurd (ground (arith, h))
  consumed-continues spawns id id' (run_not_suspended, rs) h = absurd (ground (arith, h))

  consumed-refused :
      (spawns : Bool) (id : String) (p : Marked × Runs R)
      → is_refused (consumed spawns id p).0 ≡ true
      → is_marked p.0 ≡ false
  consumed-refused true id (marked, rs) h = absurd (ground (arith, h))
  consumed-refused false id (marked, rs) h = absurd (ground (arith, h))
  consumed-refused spawns id (run_not_found, rs) h = refl
  consumed-refused spawns id (run_not_suspended, rs) h = refl

  mark-marked :
      (id : String) (now : ℕ) (runs : Runs R)
      → is_marked (mark_run_resumed id now runs).0 ≡ true
      → (r : Run R) × (lookup id runs ≡ some r)
        × (is_suspended r.status ≡ true)
        × (lookup id (mark_run_resumed id now runs).1
            ≡ some (record r { status = resumed; finished_at = some now }))
  unfolding mark_run_resumed update_row
  mark-marked id now runs m = elim (Option-cases (lookup id runs)) [
    | inl e ↦ absurd (ground (arith, m, marked_none id now runs e))
    | inr (r, e) ↦
        let g : is_suspended r.status ≡ true = ground (arith, m, marked_lem id now runs r e) in
        (
          r,
          e,
          g,
          rw (mark_run_resumed, update_row, e, g)
              (lookup-insert_self id (record r { status = resumed; finished_at = some now }) runs),
        )
  ]

  -- What holds where ResumeRun continues the run `id`.
  pub record Continued (out : Outside R) (between : Runs R → Runs R) (now : ℕ) (token : String)
      (runs : Runs R) (id : String) (runs' : Runs R) : Type 0 where
    pub row : Run R
    pub read : get_run_by_resume_token token runs ≡ some (id, row)
    pub was_suspended : is_suspended row.status ≡ true
    pub in_time : (ltb 0 row.resume_deadline && ltb row.resume_deadline now) ≡ false
    pub is_registered : out.registered row.task_id ≡ true
    pub is_admitted : out.admitted row.task_id ≡ true
    pub is_restored : out.restores row ≡ true
    pub is_rehydrated : out.rehydrates row ≡ true
    pub later : Run R
    pub read_later : lookup id (between runs) ≡ some later
    pub still_suspended : is_suspended later.status ≡ true
    pub after : lookup id runs' ≡ some (record later { status = resumed; finished_at = some now })

  module _ (out : Outside R) (between : Runs R → Runs R) (now : ℕ) (token : String)
      (runs : Runs R) where
    abbrev ready : Run R → Bool
    ready r =
        is_suspended r.status
        && not (ltb 0 r.resume_deadline && ltb r.resume_deadline now)
        && out.registered r.task_id
        && out.admitted r.task_id
        && out.restores r
        && out.rehydrates r

    checked :
        (id : String) (r : Run R)
        → get_run_by_resume_token token runs ≡ some (id, r)
        → (id' : String) → continues_with (resume_run out between now token runs).0 ≡ some id'
        → ready r ≡ true
    unfolding resume_run
    checked id r e id' h = ground (arith, rw (resume_run, e) at h)

    consumes :
        (id : String) (r : Run R)
        → get_run_by_resume_token token runs ≡ some (id, r)
        → is_suspended r.status ≡ true
        → (ltb 0 r.resume_deadline && ltb r.resume_deadline now) ≡ false
        → out.registered r.task_id ≡ true
        → out.admitted r.task_id ≡ true
        → out.restores r ≡ true
        → out.rehydrates r ≡ true
        → resume_run out between now token runs
          ≡ consumed out.spawns id (mark_run_resumed id now (between runs))
    unfolding resume_run
    consumes id r e f1 f2 f3 f4 f5 f6 = rw (resume_run, e, f1, f2, f3, f4, f5, f6) refl

    continues_by_token :
        (id : String)
        → continues_with (resume_run out between now token runs).0 ≡ some id
        → (id' : String) × (r : Run R) × (get_run_by_resume_token token runs ≡ some (id', r))
    unfolding resume_run
    continues_by_token id h = elim (Option-cases (get_run_by_resume_token token runs)) [
      | inl e ↦ absurd (ground (arith, rw (resume_run, e) at h))
      | inr ((id', r), e) ↦ (id', r, e)
    ]

    -- ResumeRun continues a run only where the token belonged to it, it was suspended and not past its deadline, its
    -- task is registered and admitted, its parameters and state are restored, and it was still suspended when its
    -- token was taken, whatever other calls did in between; the run is `resumed` afterwards.
    pub resume_run-Continued :
        (id : String)
        → continues_with (resume_run out between now token runs).0 ≡ some id
        → Continued out between now token runs id (resume_run out between now token runs).1
    resume_run-Continued id h =
        let (id', r, e) = continues_by_token id h in
        let (f1, f2, f3, f4, f5, f6) =
          all_hold (is_suspended r.status) (ltb 0 r.resume_deadline && ltb r.resume_deadline now)
            (out.registered r.task_id) (out.admitted r.task_id) (out.restores r) (out.rehydrates r)
            (checked id' r e id h) in
        let eq = consumes id' r e f1 f2 f3 f4 f5 f6 in
        let taken = mark_run_resumed id' now (between runs) in
        let (m, same) = consumed-continues out.spawns id' id taken (rw eq at h) in
        let (later, f, g, after) = mark-marked id' now (between runs) m in
        subst
          (λ z. Continued out between now token runs z (resume_run out between now token runs).1)
          same
          (record {
            row = r;
            read = e;
            was_suspended = f1;
            in_time = f2;
            is_registered = f3;
            is_admitted = f4;
            is_restored = f5;
            is_rehydrated = f6;
            later = later;
            read_later = f;
            still_suspended = g;
            after = rw (eq, consumed-table out.spawns id' taken) after;
          })

    -- A resume that is refused changes nothing: the table is what other calls left, so that a suspended run can be
    -- resumed with the same token once the cause of the refusal is gone.
    pub resume_run-refused :
        is_refused (resume_run out between now token runs).0 ≡ true
        → (resume_run out between now token runs).1 ≡ between runs
    unfolding resume_run
    resume_run-refused h = elim (Option-cases (get_run_by_resume_token token runs)) [
      | inl e ↦ rw (resume_run, e) refl
      | inr ((id, r), e) ↦ elim (Bool-cases (ready r)) [
        | inl ok ↦
            let (f1, f2, f3, f4, f5, f6) =
              all_hold (is_suspended r.status)
                (ltb 0 r.resume_deadline && ltb r.resume_deadline now) (out.registered r.task_id)
                (out.admitted r.task_id) (out.restores r) (out.rehydrates r) ok in
            let eq = consumes id r e f1 f2 f3 f4 f5 f6 in
            let taken = mark_run_resumed id now (between runs) in
            let m = consumed-refused out.spawns id taken (rw eq at h) in
            rw (eq, consumed-table out.spawns id taken) (mark-unmarked id now (between runs) m)
        | inr n ↦ rw (resume_run, e) (ground (arith, n, rw (resume_run, e) at h))
      ]
    ]
