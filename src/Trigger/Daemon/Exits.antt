-- ===== src/Trigger/Daemon/Exits.antt =====
-- pkg/trigger/daemon.go: what the end of a run that holds the slot does.
use text.Mathlib.TextEquality.{eq_iff}
use dicode_core.Prelude.{
  ℕ, String, ◌≡◌, ◌≢◌, refl, ◌∙◌, Bool, true, false, none, some, List, string_eq, nat_eq, arith,
  Option-cases, inl, inr, ap,
}
use dicode_core.Prelude.Dict.{lookup, delete, lookup-delete_self}
use dicode_core.Trigger.Slots.{
  Slots, DaemonSlot, slot_key_eq, daemon_key, owned, release, deref, holding, release_run, park,
}
use dicode_core.Trigger.Crashloop.{CrashloopEntry, reset, is_crash_looping}
use dicode_core.Trigger.DaemonState.{
  stopped, suspended, get_state, daemon_state, get-set_state_self,
}
use dicode_core.Trigger.Daemon.{
  RunStatus, success, failure, cancelled, run_suspended, other_status, Spec, Engine, start_daemon,
  exit_decision,
}
use dicode_core.Trigger.Daemon.Finish.{
  is_registered, on_daemon_run_finished, park_suspended, finish_terminal,
}
use dicode_core.Trigger.Daemon.Slot.{start_daemon-held}

-- What a handle that `holding` gives is.
pub record Held (id run : String) (s : Slots) (h : DaemonSlot) : Type 0 where
  pub key : h.k ≡ daemon_key id
  pub since : h.run ≡ run
  pub found : lookup (daemon_key id) s.m ≡ some h.e
  pub bound : (deref h.e s).run_id ≡ run

pub holding-Held :
    (id run : String) (s : Slots) (h : DaemonSlot) → holding id run s ≡ some h → Held id run s h
unfolding holding
holding-Held id run s h e = elim (Option-cases (lookup (daemon_key id) s.m)) [
  | inl free ↦ absurd (ground (arith, free, e))
  | inr (a, found) ↦ record {
    key = ground (arith, found, e);
    since = ground (arith, found, e);
    found = ground (arith, found, e);
    bound = ground (arith, found, e, eq_iff (deref a s).run_id run);
  }
]

release_run-held :
    (id run : String) (s : Slots) (h : DaemonSlot)
    → holding id run s ≡ some h
    → release_run id run s ≡ (true, record s { m = delete (daemon_key id) s.m })
unfolding release_run release owned
release_run-held id run s h e =
    let held = holding-Held id run s h e in
    ground (arith, e, held.key, held.found, held.bound, eq_iff (deref h.e s).run_id run)

-- The end of a run that holds the slot, when its status is none of cancelled and suspended: the slot
-- is free, and the restart policy decides.
pub finish-exit :
    (spec : Spec) (run : String) (status : RunStatus) (elapsed : ℕ) (e : Engine) (h : DaemonSlot)
    → holding spec.id run e.slots ≡ some h
    → is_registered spec.id e ≡ true
    → e.shutting_down ≡ false
    → status ≢ cancelled
    → status ≢ run_suspended
    → on_daemon_run_finished spec run (some (status, elapsed)) e
      ≡ exit_decision spec status elapsed
          (record e { slots = record e.slots { m = delete (daemon_key spec.id) e.slots.m } })
unfolding on_daemon_run_finished finish_terminal
finish-exit spec run success elapsed e h held reg up nc ns =
    rw (release_run-held spec.id run e.slots h held) (rw (reg, up) refl)
finish-exit spec run failure elapsed e h held reg up nc ns =
    rw (release_run-held spec.id run e.slots h held) (rw (reg, up) refl)
finish-exit spec run other_status elapsed e h held reg up nc ns =
    rw (release_run-held spec.id run e.slots h held) (rw (reg, up) refl)
finish-exit spec run cancelled elapsed e h held reg up nc ns = absurd (nc refl)
finish-exit spec run run_suspended elapsed e h held reg up nc ns = absurd (ns refl)

pub not_looping :
    (now : ℕ) (id : String) (t : List (String × CrashloopEntry))
    → (is_crash_looping now id (reset id t)).0 ≡ false
unfolding is_crash_looping reset
not_looping now id t = rw (lookup-delete_self id t, is_crash_looping) refl

-- A body that an operator kills stays down: its slot is free, nothing restarts it, and the daemon is
-- reported as stopped, not as crash-looping, whatever its restart policy and its failures before.
pub finish-cancelled :
    (now : ℕ) (spec : Spec) (run : String) (elapsed : ℕ) (e : Engine) (h : DaemonSlot)
    → holding spec.id run e.slots ≡ some h
    → is_registered spec.id e ≡ true
    → e.shutting_down ≡ false
    → let (sleep, e') = on_daemon_run_finished spec run (some (cancelled, elapsed)) e in
      (sleep ≡ none)
      × (lookup (daemon_key spec.id) e'.slots.m ≡ none)
      × ((daemon_state now spec.id e'.crashloops e'.states).0 ≡ stopped)
unfolding on_daemon_run_finished finish_terminal daemon_state
finish-cancelled now spec run elapsed e h held reg up =
    rw (release_run-held spec.id run e.slots h held) (
      rw (reg, up)
        (
          refl,
          lookup-delete_self (daemon_key spec.id) e.slots.m,
          rw (not_looping now spec.id e.crashloops) (get-set_state_self spec.id stopped e.states),
        ))

park-held :
    (id run : String) (s : Slots) (h : DaemonSlot)
    → holding id run s ≡ some h
    → (park (some h) s).0 ≡ true
unfolding park owned
park-held id run s h e =
    let held = holding-Held id run s h e in
    ground (arith, held.key, held.found, held.bound, held.since, eq_iff (deref h.e s).run_id h.run)

m-park : (h : DaemonSlot) (s : Slots) → (park (some h) s).1.m ≡ s.m
unfolding park
m-park h s = ground arith

-- A body that suspends keeps its slot: the daemon is reported as suspended, and no start, by a reload
-- for one, launches a second body.
pub finish-suspended :
    (now : ℕ) (spec : Spec) (run other : String) (elapsed : ℕ) (failed : Bool) (e : Engine)
    (h : DaemonSlot)
    → holding spec.id run e.slots ≡ some h
    → let (sleep, e') = on_daemon_run_finished spec run (some (run_suspended, elapsed)) e in
      (sleep ≡ none)
      × (get_state spec.id e'.states ≡ suspended)
      × (start_daemon now other failed spec e' ≡ e')
unfolding on_daemon_run_finished park_suspended
finish-suspended now spec run other elapsed failed e h held =
    let found : lookup (daemon_key spec.id) (park (some h) e.slots).1.m ≡ some h.e =
      ap (lookup (daemon_key spec.id)) (m-park h e.slots)
      ∙ (holding-Held spec.id run e.slots h held).found in
    rw (held, park_suspended)
      (rw (park-held spec.id run e.slots h held) (
        refl,
        get-set_state_self spec.id suspended e.states,
        start_daemon-held now other failed spec _ (h.e, found),
      ))
