-- ===== src/Trigger/Daemon/Resurrection.antt =====
-- pkg/trigger/daemon.go: a daemon that is unregistered while its restart waits.
use text.Mathlib.TextEquality.{eq_iff}
use dicode_core.Prelude.{
  ℕ, String, ◌≡◌, refl, ap, sym, subst, Bool, true, none, some, List, [], ◌∷◌, ◌++◌, length,
  string_eq, nat_eq, beq_refl, arith, Bool-cases, inl, inr, get_elem?-append_length,
}
use dicode_core.Prelude.Dict.{lookup, insert, delete, lookup-insert_self, lookup-delete_self}
use dicode_core.Trigger.Slots.{
  SlotKey, Slots, SlotEntry, new_entry, DaemonSlot, slot_key_eq, daemon_key, claim, claim_key,
  owned, release, deref,
}
use dicode_core.Trigger.Daemon.{Spec, Engine, after_backoff}
use dicode_core.Trigger.Daemon.Slot.{new_slot, claim-free}

claimed-free :
    (id : String) (s : Slots)
    → lookup (daemon_key id) s.m ≡ none
    → (claim id s).1
      ≡ record { m = insert (daemon_key id) (length s.heap) s.m; heap = s.heap ++ new_entry ∷ [] }
unfolding claim_key
claimed-free id s free = rw (free, claim_key) refl

deref-claimed :
    (m : List (SlotKey × ℕ)) (s : Slots)
    → deref (length s.heap) (record { m = m; heap = s.heap ++ new_entry ∷ [] }) ≡ new_entry
deref-claimed m s = rw (get_elem?-append_length s.heap new_entry, deref) refl

release-unbound :
    (h : DaemonSlot) (s : Slots)
    → owned h s ≡ true
    → (deref h.e s).run_id ≡ ""
    → (release (some h) "" s).1.m ≡ delete h.k s.m
unfolding release
release-unbound h s o unbound = ground (arith, eq_iff (deref h.e s).run_id "")

owned-claimed :
    (id : String) (s : Slots) (heap : List SlotEntry)
    → owned (new_slot id s) (record { m = insert (daemon_key id) (length s.heap) s.m; heap = heap })
      ≡ true
unfolding owned
owned-claimed id s heap =
    rw (lookup-insert_self (daemon_key id) (length s.heap) s.m, owned) (beq_refl (length s.heap))

release-claim :
    (id : String) (s : Slots)
    → lookup (daemon_key id) s.m ≡ none
    → lookup (daemon_key id) (release (some (new_slot id s)) "" (claim id s).1).1.m ≡ none
release-claim id s free =
    let m = insert (daemon_key id) (length s.heap) s.m in
    let unbound = ap (λ v. v.run_id) (deref-claimed m s) in
    rw (claimed-free id s free) (
      subst (λ m'. lookup (daemon_key id) m' ≡ none)
        (sym (
          release-unbound (new_slot id s) _ (owned-claimed id s (s.heap ++ new_entry ∷ []))
            unbound))
        (lookup-delete_self (daemon_key id) m))

-- A daemon that was unregistered during the backoff sleep is not started again: no run is fired, the
-- slot stays free, and what is reported stays as it is.
pub after_backoff-unregistered :
    (backoff now : ℕ) (run : String) (fire_failed : Bool) (spec : Spec) (e : Engine)
    → lookup (daemon_key spec.id) e.slots.m ≡ none
    → lookup spec.id e.specs ≡ none
    → let e' = after_backoff backoff now run fire_failed spec e in
      (lookup (daemon_key spec.id) e'.slots.m ≡ none)
      × (e'.fired ≡ e.fired)
      × (e'.states ≡ e.states)
unfolding after_backoff
after_backoff-unregistered backoff now run fire_failed spec e free gone =
    elim (Bool-cases e.shutting_down) [
      | inl down ↦ rw (down, after_backoff) (free, refl, refl)
      | inr up ↦
          rw (up, after_backoff)
            (rw (claim-free spec.id e.slots free)
              (rw gone (release-claim spec.id e.slots free, refl, refl)))
    ]
