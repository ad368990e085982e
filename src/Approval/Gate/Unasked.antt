-- ===== src/Approval/Gate/Unasked.antt =====
-- pkg/approval/gate.go: what `Admit` approves of its own accord.
use text.Mathlib.TextEquality.{eq_iff}
use dicode_core.Prelude.{
  String, ◌≡◌, refl, ◌∙◌, ◌≢◌, inl, inr, true, false, not, ◌&&◌, arith, ◌==◌, string_eq, Bool-cases,
  contains, beq_ne,
}
use dicode_core.Prelude.Dict.{insert}
use dicode_core.Approval.Lock.{Signer, approved}
use dicode_core.Approval.Lock.Records.{approved-record_approval}
use dicode_core.Approval.Gate.{
  Kinded, Config, Gate, Outside, builtin_source, source_of, trusted, admit, hash_or_empty,
  admit_auto, admit_hold, approved_by_builtin, approved_by_trusted_task, approved_by_trusted_source,
  approved_by_gate_disabled,
}

module _ {T : Type 0} ⦃kd : Kinded T⦄ (signer : Signer) (cfg : Config T) where
  approved-admit_auto :
      (out : Outside T) (k : T) (hash by : String) (g : Gate T) (j h : String)
      → kd.task_id k ≢ j
      → approved (admit_auto signer cfg out k hash by g).1.lock j h ≡ approved g.lock j h
  unfolding admit_auto
  approved-admit_auto out k hash by g j h ne = elim (Bool-cases (hash == "")) [
    | inl e ↦ rw (e, admit_auto) refl
    | inr e ↦
        rw (e, admit_auto)
          (approved-record_approval signer out.now out.write_ok (kd.task_id k) hash by _ g.lock j h
              (ground (arith, e, eq_iff hash ""))
            ∙ rw (beq_ne (kd.task_id k) j ne) refl)
  ]

  abbrev with_admitted : T → Gate T → Gate T
  with_admitted k g = record g { admitted = insert (kd.task_id k) k g.admitted }

  admit-trusted :
      (out : Outside T) (k : T) (g : Gate T)
      → trusted cfg (kd.task_id k) ≡ true
      → (by : String) × ((admit signer cfg out k g).1
          ≡ (admit_auto signer cfg out k (hash_or_empty out k) by (with_admitted k g)).1)
  unfolding admit trusted
  admit-trusted out k g t =
      let id = kd.task_id k in
      elim (Bool-cases (source_of id == builtin_source && not cfg.builtin_pinned)) [
        | inl a ↦ (approved_by_builtin, rw (a, admit) refl)
        | inr a ↦ elim (Bool-cases (contains id cfg.policy.trusted_tasks)) [
          | inl b ↦ (approved_by_trusted_task, rw (a, admit) (rw b refl))
          | inr b ↦ elim (Bool-cases (contains (source_of id) cfg.policy.trusted_sources)) [
            | inl c ↦ (approved_by_trusted_source, rw (a, admit) (rw b (rw c refl)))
            | inr c ↦ elim (Bool-cases cfg.policy.enabled) [
              | inl d ↦ absurd (ground (arith, t, a, b, c, d))
              | inr d ↦ (approved_by_gate_disabled, rw (a, admit) (rw b (rw c (rw d refl))))
            ]
          ]
        ]
      ]

  lock-admit_untrusted :
      (out : Outside T) (k : T) (g : Gate T)
      → trusted cfg (kd.task_id k) ≡ false
      → g.bootstrap ≡ false
      → (admit signer cfg out k g).1.lock ≡ g.lock
  unfolding admit trusted admit_hold
  lock-admit_untrusted out k g t b = ground arith

  -- Once the first sync is over, `Admit` approves nothing for a task that policy does not trust.
  pub approved-admit :
      (out : Outside T) (k : T) (g : Gate T) (j h : String)
      → trusted cfg j ≡ false
      → g.bootstrap ≡ false
      → approved (admit signer cfg out k g).1.lock j h ≡ approved g.lock j h
  approved-admit out k g j h t b = elim (Bool-cases (trusted cfg (kd.task_id k))) [
    | inl trusts ↦
        let (by, e) = admit-trusted out k g trusts in
        let ne : kd.task_id k ≢ j = λ same. absurd (cc) in
        rw e (approved-admit_auto out k (hash_or_empty out k) by (with_admitted k g) j h ne)
    | inr not_it ↦ rw (lock-admit_untrusted out k g not_it b) refl
  ]

  pub bootstrap-admit :
      (out : Outside T) (k : T) (g : Gate T) → (admit signer cfg out k g).1.bootstrap ≡ g.bootstrap
  unfolding admit admit_auto admit_hold
  bootstrap-admit out k g = ground arith
