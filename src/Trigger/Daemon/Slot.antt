-- ===== src/Trigger/Daemon/Slot.antt =====
-- pkg/trigger/daemon.go with daemon_slot.go: at most one body of a daemon is in flight.
use text.Mathlib.TextEquality.{eq_iff}
use dicode_core.Prelude.{
  ℕ, String, ◌≡◌, refl, ap, sym, subst, Bool, true, false, Option, none, some, List, [], ◌∷◌, ◌++◌,
  length, set, string_eq, nat_eq, arith, get_elem?-append_length,
}
use dicode_core.Prelude.Dict.{lookup, insert, delete, lookup-insert_self, lookup-delete_self}
use dicode_core.Trigger.Slots.{
  Slots, new_entry, DaemonSlot, slot_key_eq, daemon_key, claim, claim_key, attach, owned, release,
  evicted, deref, holding, release_run, run_id,
}
use dicode_core.Trigger.Crashloop.{note_spawn}
use dicode_core.Trigger.DaemonState.{
  running, failed_after_preflight, get_state, set_state, get-set_state_self,
}
use dicode_core.Trigger.Daemon.{
  RunStatus, success, failure, cancelled, run_suspended, other_status, Spec, Engine, launch_begin,
  launch_end, launch_daemon, start_daemon,
}
use dicode_core.Trigger.Daemon.Finish.{on_daemon_run_finished, park_suspended}

-- The slot of a daemon is held: a start is in flight, or a body is running or parked.
abbrev pub IsHeld : String → Slots → Type 0
IsHeld id s = (a : ℕ) × (lookup (daemon_key id) s.m ≡ some a)

-- While a body holds the slot, a start changes nothing.
pub start_daemon-held :
    (now : ℕ) (run : String) (fire_failed : Bool) (spec : Spec) (e : Engine)
    → IsHeld spec.id e.slots
    → start_daemon now run fire_failed spec e ≡ e
unfolding start_daemon claim_key
start_daemon-held now run fire_failed spec e (a, found) = rw (found, start_daemon, claim_key) refl

set-append_length :
    {A : Type 0} (xs : List A) (v w : A) → set (xs ++ v ∷ []) (length xs) w ≡ xs ++ w ∷ []
set-append_length [] v w = refl
set-append_length (x ∷ xs) v w = ap (λ ys. x ∷ ys) (set-append_length xs v w)

-- The slots after a claim of a free slot and the attachment of a run.
abbrev launched : String → String → Slots → Slots
launched id run s = record {
  m = insert (daemon_key id) (length s.heap) s.m;
  heap = s.heap ++ (record { run_id = run; parked = false; evicted = false }) ∷ [];
}

abbrev pub new_slot : String → Slots → DaemonSlot
new_slot id s = record { k = daemon_key id; e = length s.heap; run = "" }

attach-claim :
    (id run : String) (s : Slots)
    → lookup (daemon_key id) s.m ≡ none
    → attach (some (new_slot id s)) run (claim id s).1 ≡ (true, launched id run s)
unfolding attach claim_key owned
attach-claim id run s free = ground (
  arith,
  free,
  lookup-insert_self (daemon_key id) (length s.heap) s.m,
  get_elem?-append_length s.heap new_entry,
  set-append_length s.heap new_entry (record { run_id = run; parked = false; evicted = false }),
)

pub claim-free :
    (id : String) (s : Slots)
    → lookup (daemon_key id) s.m ≡ none
    → (claim id s).0 ≡ some (new_slot id s)
unfolding claim_key
claim-free id s free = rw (free, claim_key) refl

deref-launched :
    (id run : String) (s : Slots)
    → deref (length s.heap) (launched id run s)
      ≡ record { run_id = run; parked = false; evicted = false }
deref-launched id run s =
    rw
      (
        get_elem?-append_length s.heap (record { run_id = run; parked = false; evicted = false }),
        deref,
      )
      refl

-- The engine after a start whose body was launched.
abbrev after_start : ℕ → String → Spec → Engine → Engine
after_start now run spec e = record e {
  slots = launched spec.id run e.slots;
  crashloops = note_spawn now spec.id e.crashloops;
  states = set_state spec.id running e.states;
  fired = (spec.id, run) ∷ e.fired;
}

release-launched :
    (id run : String) (s : Slots)
    → (release (some (new_slot id s)) run (launched id run s)).1.m
      ≡ delete (daemon_key id) (insert (daemon_key id) (length s.heap) s.m)
unfolding release owned
release-launched id run s = ground (
  arith,
  lookup-insert_self (daemon_key id) (length s.heap) s.m,
  deref-launched id run s,
  eq_iff run run,
)

-- A start whose launch fails fires no run, gives the slot back, and reports the failed launch.
pub start_daemon-failed :
    (now : ℕ) (run : String) (spec : Spec) (e : Engine)
    → lookup (daemon_key spec.id) e.slots.m ≡ none
    → let e' = start_daemon now run true spec e in
      (lookup (daemon_key spec.id) e'.slots.m ≡ none)
      × (e'.fired ≡ e.fired)
      × (get_state spec.id e'.states ≡ failed_after_preflight)
unfolding start_daemon launch_daemon launch_begin launch_end
start_daemon-failed now run spec e free =
    let key = daemon_key spec.id in
    rw (claim-free spec.id e.slots free, start_daemon)
      (rw (attach-claim spec.id run e.slots free, launch_daemon, launch_begin)
        (
          subst (λ m. lookup key m ≡ none) (sym (release-launched spec.id run e.slots))
              (lookup-delete_self key (insert key (length e.slots.heap) e.slots.m)),
          refl,
          get-set_state_self spec.id failed_after_preflight (set_state spec.id running e.states),
        ))

-- The end of a run that does not hold its daemon's slot, because the slot was evicted, freed or taken
-- over, changes nothing and restarts nothing, whatever the run's status is.
pub stale_finish :
    (spec : Spec) (run : String) (found : Option (RunStatus × ℕ)) (e : Engine)
    → holding spec.id run e.slots ≡ none
    → on_daemon_run_finished spec run found e ≡ (none, e)
unfolding on_daemon_run_finished park_suspended release_run
stale_finish spec run none e gone = rw (gone, release_run) refl
stale_finish spec run (some (run_suspended, elapsed)) e gone = rw (gone, park_suspended) refl
stale_finish spec run (some (success, elapsed)) e gone = rw (gone, release_run) refl
stale_finish spec run (some (failure, elapsed)) e gone = rw (gone, release_run) refl
stale_finish spec run (some (cancelled, elapsed)) e gone = rw (gone, release_run) refl
stale_finish spec run (some (other_status, elapsed)) e gone = rw (gone, release_run) refl
