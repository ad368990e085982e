-- ===== src/Approval/Gate.antt =====
-- pkg/approval/gate.go: which version of a task may be armed and fired.
-- The content hash, the git commit and the arming of triggers are functions of the caller's; their
-- results are arguments of each call, since they depend on the disk at that moment.
pub mod Decisions
pub mod Admission
pub mod Approving
pub mod Firing
pub mod Unasked
pub mod History
mod Tests
use Prim.Native.Char.{code}
use Prim.Native.String
use dicode_core.Prelude.{
  ℕ, String, Bool, true, false, not, ◌&&◌, ◌||◌, Option, none, some, List, [], ◌∷◌, ◌++◌, contains,
  nat_beq, ◌==◌, if◌then◌else◌, string_eq,
}
use dicode_core.Prelude.Dict.{lookup, insert, delete}
use dicode_core.Approval.Lock
use dicode_core.Approval.Lock.{Signer, Lock, LockError, approved, record_approval, remove}

-- The methods of the interface task.Kinded that the gate calls.
pub record Kinded (T : Type 0) : Type 0 where
  pub task_id : T → String
  pub is_enabled : T → Bool

pub record Policy : Type 0 where
  pub enabled : Bool
  pub trusted_sources : List String
  pub trusted_tasks : List String

-- The configuration of a gate, which its operations do not change.
pub record Config (T : Type 0) : Type 0 where
  pub policy : Policy
  pub builtin_pinned : Bool
  pub preview : Option (T → T)

pub record PendingEntry (T : Type 0) : Type 0 where
  pub kinded : T
  pub hash : String
  pub commit : String
  pub remote : String
  pub base_commit : String
  pub enabled : Bool

-- `armed` is the history of the calls of `arm`, `notified` that of the pending hook; newest first.
pub record Gate (T : Type 0) : Type 0 where
  pub lock : Lock
  pub pending : List (String × PendingEntry T)
  pub admitted : List (String × T)
  pub bootstrap : Bool
  pub hook : Bool
  pub armed : List T
  pub notified : List (T × String)

-- What the outside answers to one call: the content hash of a task now (`none` when it cannot be
-- computed), its commit and remote, the error of arming it, the clock, and whether the lock file
-- can be written.
pub record Outside (T : Type 0) : Type 0 where
  pub hash_of : T → Option String
  pub commit_of : T → String × String
  pub arm_error : T → Bool
  pub now : ℕ
  pub write_ok : Bool

pub data GateError : Type 0 where
  not_pending no_hash hash_mismatch empty_hash arm_failed pending_approval : GateError
  lock_failed : LockError → GateError

abbrev pub builtin_source : String
builtin_source = "buildin"

abbrev pub approved_by_builtin : String
approved_by_builtin = "builtin"

abbrev pub approved_by_trusted_source : String
approved_by_trusted_source = "trusted-source"

abbrev pub approved_by_trusted_task : String
approved_by_trusted_task = "trusted-task"

abbrev pub approved_by_manual : String
approved_by_manual = "manual"

abbrev pub approved_by_token : String
approved_by_token = "token-link"

abbrev pub approved_by_gate_disabled : String
approved_by_gate_disabled = "gate-disabled"

abbrev pub approved_by_bootstrap : String
approved_by_bootstrap = "bootstrap"

-- The text before the first '/', `none` when there is no '/'.
pub before_slash : String → Option String
before_slash String.[] = none
before_slash (String.◌∷◌ c s) =
    let rest = before_slash s in
    if nat_beq (code c) b'/'
    then some ""
    else elim rest [ none ↦ none | some r ↦ some (String.◌∷◌ c r) ]

-- The source part of a task id: "" when it has none, or begins with '/'.
unfoldable pub source_of : String → String
unfolding before_slash
source_of id = elim (before_slash id) [ none ↦ "" | some s ↦ s ]

module _ {T : Type 0} (cfg : Config T) where
  unfoldable pub trusted : String → Bool
  unfolding source_of
  trusted id =
      if source_of id == builtin_source && not cfg.builtin_pinned
      then true
      else if contains id cfg.policy.trusted_tasks
      then true
      else if contains (source_of id) cfg.policy.trusted_sources
      then true
      else if not cfg.policy.enabled
      then true
      else false

module _ {T : Type 0} where
  abbrev pub clear_pending : String → Gate T → Gate T
  clear_pending id g = record g { pending = delete id g.pending }

  -- The hash that `Admit` works with; "" when it could not be computed.
  abbrev pub hash_or_empty : Outside T → T → String
  hash_or_empty out k = elim (out.hash_of k) [ none ↦ "" | some h ↦ h ]

  abbrev arm : Outside T → T → Gate T → Bool × Gate T
  arm out k g = (out.arm_error k, record g { armed = k ∷ g.armed })

  unfoldable pub finish_bootstrap : Gate T → Bool × Gate T
  finish_bootstrap g = (g.bootstrap, record g { bootstrap = false })

  unfoldable pub is_pending : String → Gate T → Bool
  is_pending id g = elim (lookup id g.pending) [ none ↦ false | some ent ↦ true ]

-- How `Admit` ended: `armed`, and the error of arming.
pub record Admitted : Type 0 where
  pub armed : Bool
  pub failed : Bool

module _ {T : Type 0} ⦃kd : Kinded T⦄ (signer : Signer) (cfg : Config T) (out : Outside T) where
  -- The end of `Admit` for a task that may run without a recorded approval.
  unfoldable pub admit_auto : T → String → String → Gate T → Admitted × Gate T
  admit_auto k hash by g =
      let id = kd.task_id k in
      let commit = if approved g.lock id hash then "" else (out.commit_of k).0 in
      let g1 = clear_pending id g in
      let lock =
        if hash == ""
        then g1.lock
        else (record_approval signer out.now out.write_ok id hash by commit g1.lock).1 in
      let (failed, g2) = arm out k (record g1 { lock = lock }) in
      (record { armed = true; failed = failed }, g2)

  abbrev preview_enabled : T → Bool
  preview_enabled k = elim cfg.preview [ none ↦ kd.is_enabled k | some f ↦ kd.is_enabled (f k) ]

  -- Whether a hold differs from the one on record.
  abbrev changed : Option (PendingEntry T) → String → Bool → Bool
  changed none hash enabled = true
  changed (some prev) hash enabled =
      not (prev.hash == hash) || (if prev.enabled then not enabled else enabled)

  abbrev base_of : Option Lock.Record → String
  base_of none = ""
  base_of (some rec) = rec.commit

  -- The `default` branch of `Admit`: the task is held.
  unfoldable pub admit_hold : T → String → Gate T → Admitted × Gate T
  admit_hold k hash g =
      let id = kd.task_id k in
      let enabled = preview_enabled k in
      let (commit, remote) = out.commit_of k in
      let entry : PendingEntry T = record {
        kinded = k;
        hash = hash;
        commit = commit;
        remote = remote;
        base_commit = base_of (lookup id g.lock.tasks);
        enabled = enabled;
      } in
      let notified =
        if g.hook && changed (lookup id g.pending) hash enabled
        then (k, hash) ∷ g.notified
        else g.notified in
      (
        record { armed = false; failed = false },
        record g { pending = insert id entry g.pending; notified = notified },
      )

  unfoldable pub admit : T → Gate T → Admitted × Gate T
  unfolding admit_auto admit_hold source_of
  admit k g0 =
      let id = kd.task_id k in
      let hash = hash_or_empty out k in
      let g = record g0 { admitted = insert id k g0.admitted } in
      if source_of id == builtin_source && not cfg.builtin_pinned
      then admit_auto k hash approved_by_builtin g
      else if contains id cfg.policy.trusted_tasks
      then admit_auto k hash approved_by_trusted_task g
      else if contains (source_of id) cfg.policy.trusted_sources
      then admit_auto k hash approved_by_trusted_source g
      else if not cfg.policy.enabled
      then admit_auto k hash approved_by_gate_disabled g
      else if approved g.lock id hash
      then (let (failed, g') = arm out k (clear_pending id g) in
          (record { armed = true; failed = failed }, g'))
      else if g.bootstrap
      then admit_auto k hash approved_by_bootstrap g
      else admit_hold k hash g
