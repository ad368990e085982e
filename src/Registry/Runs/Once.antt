-- ===== src/Registry/Runs/Once.antt =====
-- pkg/registry/registry.go and resume.go: a suspended run over any sequence of calls.
use text.Mathlib.TextEquality.{eq_iff}
use dicode_core.Prelude.{
  ℕ, suc, ◌≤◌, String, ◌≡◌, refl, ap, Bool, true, false, ◌&&◌, Option, none, some, List, [], ◌∷◌,
  all, arith, ◌==◌, string_eq, Bool-cases, Option-cases, inl, inr, if◌then◌else◌,
}
use dicode_core.Prelude.Dict.{lookup, lookup-insert, lookup-insert_self}
use dicode_core.Registry.Runs.{
  Status, running, suspended, resumed, is_suspended, Run, Runs, new_run, start_run_with_id,
  update_row, finish_run, suspend_run, Marked, marked, run_not_found, run_not_suspended,
  mark_run_resumed, cancel_suspended_run, sweep_expired_suspensions, cleanup_stale_runs,
}

-- The calls that write a run's status.
pub data Op (R : Type 0) : Type 0 where
  start : String → String → String → Op R
  finish : String → Status → Option String → ℕ → Op R
  suspend : String → String → ℕ → R → Op R
  mark : String → ℕ → Op R
  cancel : String → String → ℕ → Op R
  sweep : ℕ → Op R
  cleanup : ℕ → Op R

abbrev pub is_closed : Status → Bool
is_closed running = false
is_closed suspended = false
is_closed _ = true

abbrev pub is_marked : Marked → Bool
is_marked marked = true
is_marked run_not_found = false
is_marked run_not_suspended = false

module _ {R : Type 0} where
  unfoldable pub or_same : Option (Runs R) → Runs R → Runs R
  or_same none runs = runs
  or_same (some runs') runs = runs'

  unfoldable pub exec : Op R → Runs R → Runs R
  unfolding or_same
  exec (start id task parent) runs = or_same (start_run_with_id id task parent runs) runs
  exec (finish id status reason now) runs = finish_run id status reason now runs
  exec (suspend id token deadline stored) runs = (suspend_run id token deadline stored runs).1
  exec (mark id now) runs = (mark_run_resumed id now runs).1
  exec (cancel id reason now) runs = (cancel_suspended_run id reason now runs).1
  exec (sweep now) runs = (sweep_expired_suspensions now runs).1
  exec (cleanup now) runs = (cleanup_stale_runs now runs).1

  -- A run is finished with a status that ends it.
  abbrev pub ends : Op R → Bool
  ends (finish id status reason now) = is_closed status
  ends _ = true

  -- The call that takes a suspended run's token.
  unfoldable pub takes : String → Op R → Runs R → Bool
  takes id (mark key now) runs = key == id && is_marked (mark_run_resumed key now runs).0
  takes id _ runs = false

  unfoldable pub times_taken : String → List (Op R) → Runs R → ℕ
  unfolding exec takes
  times_taken id [] runs = 0
  times_taken id (op ∷ ops) runs =
      let later = times_taken id ops (exec op runs) in if takes id op runs then suc later else later

  abbrev closed_row : Option (Run R) → Bool
  closed_row none = false
  closed_row (some r) = is_closed r.status

  abbrev pub spent : String → Runs R → Bool
  spent id runs = closed_row (lookup id runs)

  spent-update_row :
      (id key : String) (guard : Run R → Bool) (change : Run R → Run R) (runs : Runs R)
      → ((r : Run R)
          → guard r ≡ true
          → is_closed r.status ≡ true
          → is_closed (change r).status ≡ true)
      → spent id runs ≡ true
      → spent id (update_row key guard change runs).1 ≡ true
  unfolding update_row
  spent-update_row id key guard change runs keeps h = elim (Option-cases (lookup key runs)) [
    | inl e ↦ rw (update_row, e) h
    | inr (r, e) ↦ elim (Bool-cases (guard r)) [
      | inr g ↦ rw (update_row, e, g) h
      | inl g ↦
          rw (update_row, e, g, lookup-insert key id (change r) runs)
            (elim (Bool-cases (key == id)) [
              | inr other ↦ rw other h
              | inl same ↦
                  let at_id : lookup id runs ≡ some r = rw⁻¹ ((eq_iff key id).0 same) e in
                  rw same (keeps r g (ground (arith, h, ap closed_row at_id)))
            ])
    ]
  ]

  spent-sweep :
      (id : String) (now : ℕ) (runs : Runs R)
      → spent id runs ≡ true
      → spent id (sweep_expired_suspensions now runs).1 ≡ true
  unfolding sweep_expired_suspensions lookup
  spent-sweep id now [] h = h
  spent-sweep id now ((key, r) ∷ rest) h = elim (Bool-cases (key == id)) [
    | inl same ↦ ground (arith, same, h)
    | inr other ↦ ground (arith, other, spent-sweep id now rest (ground (arith, other, h)))
  ]

  spent-cleanup :
      (id : String) (now : ℕ) (runs : Runs R)
      → spent id runs ≡ true
      → spent id (cleanup_stale_runs now runs).1 ≡ true
  unfolding cleanup_stale_runs lookup
  spent-cleanup id now [] h = h
  spent-cleanup id now ((key, r) ∷ rest) h = elim (Bool-cases (key == id)) [
    | inl same ↦ ground (arith, same, h)
    | inr other ↦ ground (arith, other, spent-cleanup id now rest (ground (arith, other, h)))
  ]

  spent-start :
      (id key task parent : String) (runs : Runs R)
      → spent id runs ≡ true
      → spent id (or_same (start_run_with_id key task parent runs) runs) ≡ true
  unfolding or_same start_run_with_id
  spent-start id key task parent runs h = elim (Option-cases (lookup key runs)) [
    | inr (r, e) ↦ rw (start_run_with_id, or_same, e) h
    | inl e ↦
        let other : (key == id) ≡ false = elim (Bool-cases (key == id)) [
          | inr n ↦ n
          | inl same ↦
              let none_at : lookup id runs ≡ none = rw⁻¹ ((eq_iff key id).0 same) e in
              absurd (ground (arith, h, ap closed_row none_at))
        ] in
        rw (start_run_with_id, or_same, e)
          (ground (arith, h, other, lookup-insert key id (new_run key task parent runs) runs))
  ]

  -- A run that has ended stays so.
  spent-exec :
      (id : String) (op : Op R) (runs : Runs R)
      → ends op ≡ true
      → spent id runs ≡ true
      → spent id (exec op runs) ≡ true
  unfolding exec mark_run_resumed finish_run suspend_run cancel_suspended_run
  spent-exec id (start key task parent) runs w h = spent-start id key task parent runs h
  spent-exec id (finish key status reason now) runs w h =
      spent-update_row id key (λ r. true) _ runs (λ r g c. w) h
  spent-exec id (suspend key token deadline stored) runs w h =
      spent-update_row id key _ _ runs (λ r g c. absurd (ground (arith, g, c))) h
  spent-exec id (mark key now) runs w h = spent-update_row id key _ _ runs (λ r g c. refl) h
  spent-exec id (cancel key reason now) runs w h =
      spent-update_row id key _ _ runs (λ r g c. refl) h
  spent-exec id (sweep now) runs w h = spent-sweep id now runs h
  spent-exec id (cleanup now) runs w h = spent-cleanup id now runs h

  -- MarkRunResumed answers by the row's status before the call.
  pub marked_lem :
      (key : String) (now : ℕ) (runs : Runs R) (r : Run R)
      → lookup key runs ≡ some r
      → is_marked (mark_run_resumed key now runs).0 ≡ is_suspended r.status
  unfolding mark_run_resumed update_row
  marked_lem key now runs r e = elim (Bool-cases (is_suspended r.status)) [
    | inl g ↦ rw (mark_run_resumed, update_row, e, g) refl
    | inr g ↦ rw (mark_run_resumed, update_row, e, g) (ground (arith, e))
  ]

  pub marked_none :
      (key : String) (now : ℕ) (runs : Runs R)
      → lookup key runs ≡ none
      → is_marked (mark_run_resumed key now runs).0 ≡ false
  unfolding mark_run_resumed update_row
  marked_none key now runs e = rw (mark_run_resumed, update_row, e) (ground (arith, e))

  not_marked :
      (key : String) (now : ℕ) (runs : Runs R)
      → spent key runs ≡ true
      → is_marked (mark_run_resumed key now runs).0 ≡ false
  not_marked key now runs h = elim (Option-cases (lookup key runs)) [
    | inl e ↦ marked_none key now runs e
    | inr (r, e) ↦ ground (arith, h, ap closed_row e, marked_lem key now runs r e)
  ]

  -- Nobody takes the token of a run that has ended.
  takes-spent :
      (id : String) (op : Op R) (runs : Runs R) → spent id runs ≡ true → takes id op runs ≡ false
  unfolding takes
  takes-spent id (start key task parent) runs h = refl
  takes-spent id (finish key status reason now) runs h = refl
  takes-spent id (suspend key token deadline stored) runs h = refl
  takes-spent id (mark key now) runs h = elim (Bool-cases (key == id)) [
    | inr other ↦ ground (arith, other)
    | inl same ↦
        let h' : spent key runs ≡ true = rw ((eq_iff key id).0 same) h in
        ground (arith, not_marked key now runs h')
  ]
  takes-spent id (cancel key reason now) runs h = refl
  takes-spent id (sweep now) runs h = refl
  takes-spent id (cleanup now) runs h = refl

  spent-mark :
      (key : String) (now : ℕ) (runs : Runs R)
      → is_marked (mark_run_resumed key now runs).0 ≡ true
      → spent key (mark_run_resumed key now runs).1 ≡ true
  unfolding mark_run_resumed update_row
  spent-mark key now runs m = elim (Option-cases (lookup key runs)) [
    | inl e ↦ absurd (ground (arith, m, marked_none key now runs e))
    | inr (r, e) ↦
        let g : is_suspended r.status ≡ true = ground (arith, m, marked_lem key now runs r e) in
        rw
          (
            mark_run_resumed,
            update_row,
            e,
            g,
            lookup-insert_self key (record r { status = resumed; finished_at = some now }) runs,
          )
          refl
  ]

  spent-takes :
      (id : String) (op : Op R) (runs : Runs R)
      → takes id op runs ≡ true
      → spent id (exec op runs) ≡ true
  unfolding takes exec
  spent-takes id (start key task parent) runs h = absurd (ground (arith, h))
  spent-takes id (finish key status reason now) runs h = absurd (ground (arith, h))
  spent-takes id (suspend key token deadline stored) runs h = absurd (ground (arith, h))
  spent-takes id (mark key now) runs h =
      rw⁻¹ ((eq_iff key id).0 (ground (arith, h))) (spent-mark key now runs (ground (arith, h)))
  spent-takes id (cancel key reason now) runs h = absurd (ground (arith, h))
  spent-takes id (sweep now) runs h = absurd (ground (arith, h))
  spent-takes id (cleanup now) runs h = absurd (ground (arith, h))

  times_taken-spent :
      (id : String) (ops : List (Op R)) (runs : Runs R)
      → all ends ops ≡ true
      → spent id runs ≡ true
      → times_taken id ops runs ≡ 0
  unfolding times_taken
  times_taken-spent id [] runs w h = refl
  times_taken-spent id (op ∷ ops) runs w h = ground (
    arith,
    takes-spent id op runs h,
    times_taken-spent id ops (exec op runs) (ground (arith, w))
        (spent-exec id op runs (ground (arith, w)) h),
  )

  -- A suspended run is resumed once: over any calls, of which those that finish a run give it a status that ends it,
  -- at most one takes its token.
  pub times_taken-once :
      (id : String) (ops : List (Op R)) (runs : Runs R)
      → all ends ops ≡ true
      → times_taken id ops runs ≤ 1
  unfolding times_taken
  times_taken-once id [] runs w = omega arith
  times_taken-once id (op ∷ ops) runs w = elim (Bool-cases (takes id op runs)) [
    | inr n ↦ ground (arith, n, times_taken-once id ops (exec op runs) (ground (arith, w)))
    | inl t ↦ ground (
      arith,
      t,
      times_taken-spent id ops (exec op runs) (ground (arith, w)) (spent-takes id op runs t),
    )
  ]
