-- ===== src/Approval/Gate/Firing.antt =====
-- pkg/approval/gate.go: a run starts only on content that was approved.
use dicode_core.Prelude.{String, ◌≡◌, ◌⊎◌, inl, inr, ◌↔◌, true, false, none, some, arith, string_eq}
use dicode_core.Prelude.Dict.{lookup, lookup-delete_self}
use dicode_core.Approval.Lock.{Signer, approved}
use dicode_core.Approval.Gate.{Config, Gate, Outside, pending_approval, trusted}
use dicode_core.Approval.Gate.Decisions.{fire_guard, forget}

-- What allows a run: the task is not held, and is either trusted by policy, or admitted with content
-- whose hash can be computed now and is the approved one.
abbrev pub MayFire : {T : Type 0} → Config T → Outside T → String → Gate T → Type 0
MayFire {T} cfg out id g =
    (lookup id g.pending ≡ none)
    × ((trusted cfg id ≡ true)
        ⊎ ((k : T) × (h : String) × (lookup id g.admitted ≡ some k)
            × (out.hash_of k ≡ some h)
            × (approved g.lock id h ≡ true)))

module _ {T : Type 0} (cfg : Config T) (out : Outside T) (id : String) (g : Gate T) where
  fire_guard_sound : fire_guard cfg out id g ≡ none → MayFire cfg out id g
  unfolding fire_guard
  fire_guard_sound h = ground arith

  fire_guard_complete : MayFire cfg out id g → fire_guard cfg out id g ≡ none
  unfolding fire_guard
  fire_guard_complete (idle, inl t) = ground arith
  fire_guard_complete (idle, inr (k, h, found, hashed, ok)) = ground arith

  -- The guard lets a run start exactly when the task is not held and is either trusted by policy or
  -- admitted with content whose hash, computed now, is the approved one.
  pub fire_guard_iff : (fire_guard cfg out id g ≡ none) ↔ MayFire cfg out id g
  fire_guard_iff = (fire_guard_sound, fire_guard_complete)

-- A task that is forgotten does not run again before it is admitted again, unless policy trusts it.
pub fire_guard-forget :
    {T : Type 0} (signer : Signer) (cfg : Config T) (out later : Outside T) (id : String)
    (g : Gate T)
    → trusted cfg id ≡ false
    → fire_guard cfg later id (forget signer out id g) ≡ some pending_approval
unfolding fire_guard forget
fire_guard-forget signer cfg out later id g h =
    ground (arith, lookup-delete_self id g.pending, lookup-delete_self id g.admitted)
