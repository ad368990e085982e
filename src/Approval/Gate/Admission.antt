-- ===== src/Approval/Gate/Admission.antt =====
-- pkg/approval/gate.go: what `Admit` decides, and what it leaves behind for the next run.
use dicode_core.Prelude.{
  String, ◌≡◌, refl, ◌≢◌, ◌⊎◌, inl, inr, ◌↔◌, true, false, none, some, arith, ◌==◌, if◌then◌else◌,
  string_eq, beq_ne,
}
use dicode_core.Prelude.Dict.{insert, lookup, lookup-delete_self, lookup-insert_self}
use dicode_core.Approval.Lock.{Signer, approved}
use dicode_core.Approval.Lock.Records.{approved-eq, approved-new}
use dicode_core.Approval.Gate.{
  Kinded, Config, PendingEntry, Gate, Outside, pending_approval, trusted, admit, arm, clear_pending,
  approved_by_bootstrap, hash_or_empty, admit_auto, admit_hold,
}
use dicode_core.Approval.Gate.Decisions.{fire_guard}

fire_guard_of_pending :
    {T : Type 0} (cfg : Config T) (out : Outside T) (id : String) (g : Gate T)
    {ent : PendingEntry T}
    → lookup id g.pending ≡ some ent
    → fire_guard cfg out id g ≡ some pending_approval
unfolding fire_guard
fire_guard_of_pending cfg out id g e = ground arith

module _ {T : Type 0} ⦃kd : Kinded T⦄ where
  -- What lets a task be armed.
  abbrev pub MayArm : Config T → Outside T → T → Gate T → Type 0
  MayArm cfg out k g =
      (trusted cfg (kd.task_id k) ≡ true)
      ⊎ (approved g.lock (kd.task_id k) (hash_or_empty out k) ≡ true)
      ⊎ (g.bootstrap ≡ true)

module _ {T : Type 0} ⦃kd : Kinded T⦄ (signer : Signer) (cfg : Config T) (out : Outside T) where
  armed_sound :
      (k : T) (g : Gate T) → (admit signer cfg out k g).0.armed ≡ true → MayArm cfg out k g
  unfolding admit trusted
  armed_sound k g h = ground arith

  armed_complete :
      (k : T) (g : Gate T) → MayArm cfg out k g → (admit signer cfg out k g).0.armed ≡ true
  unfolding admit trusted
  armed_complete k g h = ground arith

  -- `Admit` arms a task exactly when policy trusts it, its content is the approved one, or the first
  -- sync of a new installation is on.
  pub armed_iff :
      (k : T) (g : Gate T) → ((admit signer cfg out k g).0.armed ≡ true) ↔ MayArm cfg out k g
  armed_iff k g = (armed_sound k g, armed_complete k g)

  abbrev with_admitted : T → Gate T → Gate T
  with_admitted k g = record g { admitted = insert (kd.task_id k) k g.admitted }

  admit-held :
      (k : T) (g : Gate T)
      → (admit signer cfg out k g).0.armed ≡ false
      → admit signer cfg out k g
        ≡ admit_hold signer cfg out k (hash_or_empty out k) (with_admitted k g)
  unfolding admit
  admit-held k g h = ground arith

  admit_hold_lem :
      (later : Outside T) (k : T) (hash : String) (g : Gate T)
      → let g' = (admit_hold signer cfg out k hash g).1 in
        (g'.armed ≡ g.armed)
        × (g'.lock ≡ g.lock)
        × (fire_guard cfg later (kd.task_id k) g' ≡ some pending_approval)
  unfolding admit_hold
  admit_hold_lem later k hash g =
      (refl, refl, fire_guard_of_pending cfg later (kd.task_id k) _ (lookup-insert_self _ _ _))

  -- A task that `Admit` holds is not armed, nothing is recorded, and no run of it starts.
  pub admit_held_lem :
      (later : Outside T) (k : T) (g : Gate T)
      → (admit signer cfg out k g).0.armed ≡ false
      → let g' = (admit signer cfg out k g).1 in
        (g'.armed ≡ g.armed)
        × (g'.lock ≡ g.lock)
        × (fire_guard cfg later (kd.task_id k) g' ≡ some pending_approval)
  admit_held_lem later k g h =
      rw (admit-held k g h) (admit_hold_lem later k (hash_or_empty out k) (with_admitted k g))

  -- What an armed task leaves: no hold, itself on record as admitted, and its hash approved.
  record Settled (k : T) (hash : String) (g : Gate T) : Type 0 where
    idle : lookup (kd.task_id k) g.pending ≡ none
    found : lookup (kd.task_id k) g.admitted ≡ some k
    ok : hash ≢ "" → approved g.lock (kd.task_id k) hash ≡ true

  admit_auto-Settled :
      (k : T) (hash by : String) (g : Gate T)
      → lookup (kd.task_id k) g.admitted ≡ some k
      → Settled k hash (admit_auto signer cfg out k hash by g).1
  unfolding admit_auto
  admit_auto-Settled k hash by g found = record {
    idle = lookup-delete_self (kd.task_id k) g.pending;
    found = found;
    ok = λ ne.
        rw (beq_ne hash "" ne)
          (approved-new signer out.now out.write_ok (kd.task_id k) hash by _ g.lock ne);
  }

  admit-armed :
      (k : T) (g : Gate T)
      → (admit signer cfg out k g).0.armed ≡ true
      → trusted cfg (kd.task_id k) ≡ false
      → (approved g.lock (kd.task_id k) (hash_or_empty out k) ≡ true)
          × ((admit signer cfg out k g).1
              ≡ (arm out k (clear_pending (kd.task_id k) (with_admitted k g))).1)
        ⊎ ((admit signer cfg out k g).1
            ≡ (admit_auto signer cfg out k
                (hash_or_empty out k)
                approved_by_bootstrap
                (with_admitted k g)).1)
  unfolding admit trusted
  admit-armed k g a t = ground arith

  admit-Settled :
      (k : T) (g : Gate T)
      → (admit signer cfg out k g).0.armed ≡ true
      → trusted cfg (kd.task_id k) ≡ false
      → Settled k (hash_or_empty out k) (admit signer cfg out k g).1
  admit-Settled k g a t = elim (admit-armed k g a t) [
    | inl (ok, e) ↦ rw e (record {
      idle = lookup-delete_self (kd.task_id k) g.pending;
      found = lookup-insert_self (kd.task_id k) k g.admitted;
      ok = λ ne. ok;
    })
    | inr e ↦ rw e (
        admit_auto-Settled k (hash_or_empty out k) _ (with_admitted k g)
          (lookup-insert_self (kd.task_id k) k g.admitted))
  ]

  -- After `Admit` armed a task that policy does not trust, a run starts exactly while the content
  -- hashes to what it did then.
  pub fire_guard-admit_armed :
      (later : Outside T) (k : T) (g : Gate T) (h h' : String)
      → (admit signer cfg out k g).0.armed ≡ true
      → trusted cfg (kd.task_id k) ≡ false
      → out.hash_of k ≡ some h
      → h ≢ ""
      → later.hash_of k ≡ some h'
      → fire_guard cfg later (kd.task_id k) (admit signer cfg out k g).1
        ≡ (if h == h' then none else some pending_approval)
  unfolding fire_guard
  fire_guard-admit_armed later k g h h' a t e ne e' =
      let s = admit-Settled k g a t in
      let same : hash_or_empty out k ≡ h = rw (e, hash_or_empty) refl in
      let ok = rw same at s.ok ne in
      ground (
        arith,
        s.idle,
        s.found,
        approved-eq (admit signer cfg out k g).1.lock (kd.task_id k) h h' ok,
      )
