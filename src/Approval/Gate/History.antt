-- ===== src/Approval/Gate/History.antt =====
-- pkg/approval/gate.go: what the calls of a gate's life can have approved.
use dicode_core.Prelude.{String, ◌≡◌, ◌⊎◌, some, List, [], ◌∷◌, string_eq}
use dicode_core.Prelude.Dict.{lookup}
use dicode_core.Approval.Lock.{Signer}
use dicode_core.Approval.Gate.{Kinded, Config, PendingEntry, Gate, Outside, admit, finish_bootstrap}
use dicode_core.Approval.Gate.Decisions.{approve, approve_if_hash, forget}

-- A call on a gate, with what the outside answers to it.
pub data GateOp (T : Type 0) : Type 0 where
  admit_op : Outside T → T → GateOp T
  approve_op : Outside T → String → GateOp T
  approve_if_hash_op : Outside T → String → String → GateOp T
  forget_op : Outside T → String → GateOp T
  finish_bootstrap_op : GateOp T

module _ {T : Type 0} ⦃kd : Kinded T⦄ (signer : Signer) (cfg : Config T) where
  -- The call approves the hash `h` for the task `id`: an operator's call on a held entry of that hash.
  abbrev pub Approves : String → String → GateOp T → Gate T → Type 0
  Approves id h (admit_op out k) g = ⊥
  Approves id h (approve_op out j) g =
      (ent : PendingEntry T) × (lookup j g.pending ≡ some ent) × (j ≡ id) × (ent.hash ≡ h)
  Approves id h (approve_if_hash_op out j want) g =
      (ent : PendingEntry T) × (lookup j g.pending ≡ some ent)
      × (j ≡ id)
      × (ent.hash ≡ h)
      × (want ≡ h)
  Approves id h (forget_op out j) g = ⊥
  Approves id h finish_bootstrap_op g = ⊥

  unfoldable pub step : GateOp T → Gate T → Gate T
  step (admit_op out k) g = (admit signer cfg out k g).1
  step (approve_op out id) g = (approve signer out id g).1
  step (approve_if_hash_op out id hash) g = (approve_if_hash signer out id hash g).1
  step (forget_op out id) g = forget signer out id g
  step finish_bootstrap_op g = (finish_bootstrap g).1

  unfoldable pub run_gate : List (GateOp T) → Gate T → Gate T
  unfolding step
  run_gate [] g = g
  run_gate (op ∷ ops) g = run_gate ops (step op g)

  -- One of the calls, at the gate as it was then, approves `h` for `id`.
  abbrev pub SomeApproves : String → String → List (GateOp T) → Gate T → Type 0
  SomeApproves id h [] g = ⊥
  SomeApproves id h (op ∷ ops) g = Approves id h op g ⊎ SomeApproves id h ops (step op g)
