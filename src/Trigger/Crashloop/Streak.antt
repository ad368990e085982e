-- ===== src/Trigger/Crashloop/Streak.antt =====
-- pkg/trigger/crashloop.go: the counter against the history of a daemon.
use text.Mathlib.TextEquality.{eq_iff}
use dicode_core.Prelude.{
  ℕ, suc, ◌≤◌, String, ◌≡◌, refl, ◌↔◌, Bool, true, false, ◌||◌, ◌&&◌, Option, none, some, List, [],
  ◌∷◌, leb, if◌then◌else◌, string_eq, arith, ◌==◌, ◌∙◌, Option-cases, inl, inr,
}
use dicode_core.Prelude.Dict.{lookup, insert, lookup-insert, lookup-delete}
use dicode_core.Trigger.Crashloop.{
  CrashloopEntry, Tracker, crashloop_threshold, crashloop_sustain_window, sustained, entry_or_new,
  note_spawn, note_exit, clear_spawn, reset, is_crash_looping,
}

-- What happens to daemons; a history has its newest event first.
pub data Event : Type 0 where
  spawn : ℕ → String → Event
  exit : String → ℕ → Bool → Event
  launch_failed : String → Event
  cancelled : String → Event

unfoldable pub track : Event → Tracker → Tracker
track (spawn now id) t = note_spawn now id t
track (exit id elapsed clean) t = (note_exit id elapsed clean t).1
track (launch_failed id) t = clear_spawn id t
track (cancelled id) t = reset id t

unfoldable pub track_all : List Event → Tracker
unfolding track
track_all [] = []
track_all (ev ∷ history) = track ev (track_all history)

-- How many quick failures of `id` in a row end the history.
unfoldable pub streak : String → List Event → ℕ
streak id [] = 0
streak id (spawn now j ∷ history) = streak id history
streak id (exit j elapsed clean ∷ history) =
    let before = streak id history in
    if j == id
    then (if clean || leb crashloop_sustain_window elapsed then 0 else suc before)
    else before
streak id (launch_failed j ∷ history) = streak id history
streak id (cancelled j ∷ history) = let before = streak id history in if j == id then 0 else before

abbrev pub fails : String → Tracker → ℕ
fails id t = (entry_or_new (lookup id t)).quick_fails

-- Writing the spawn time leaves every counter alone.
fails-respawn :
    (j id : String) (t : Tracker) (e : CrashloopEntry) (o : Option ℕ)
    → lookup j t ≡ some e
    → fails id (insert j (record e { spawned_at = o }) t) ≡ fails id t
fails-respawn j id t e o found =
    ground (arith, eq_iff j id, found, lookup-insert j id (record e { spawned_at = o }) t)

fails-note_spawn :
    (now : ℕ) (j id : String) (t : Tracker) → fails id (note_spawn now j t) ≡ fails id t
unfolding note_spawn
fails-note_spawn now j id t = elim (Option-cases (lookup j t)) [
  | inl e ↦ rw (e, note_spawn)
  | inr (e, found) ↦ rw (found, note_spawn) (fails-respawn j id t e (some now) found)
]

fails-clear_spawn : (j id : String) (t : Tracker) → fails id (clear_spawn j t) ≡ fails id t
unfolding clear_spawn
fails-clear_spawn j id t = elim (Option-cases (lookup j t)) [
  | inl e ↦ rw (e, clear_spawn)
  | inr (e, found) ↦ rw (found, clear_spawn) (fails-respawn j id t e none found)
]

fails-track :
    (ev : Event) (id : String) (t : Tracker) (history : List Event)
    → fails id t ≡ streak id history
    → fails id (track ev t) ≡ streak id (ev ∷ history)
unfolding track streak note_exit reset
fails-track (spawn now j) id t history h = fails-note_spawn now j id t ∙ h
fails-track (exit j elapsed clean) id t history h = ground (
  arith,
  eq_iff j id,
  lookup-delete j id t,
  lookup-insert j id (record { quick_fails = suc (fails j t); spawned_at = none }) t,
)
fails-track (launch_failed j) id t history h = fails-clear_spawn j id t ∙ h
fails-track (cancelled j) id t history h = ground (arith, eq_iff j id, lookup-delete j id t)

-- The counter of a daemon is the number of its quick failures since its last good run or
-- cancellation, whatever happens to other daemons in between.
pub fails-track_all :
    (id : String) (history : List Event) → fails id (track_all history) ≡ streak id history
unfolding track_all streak
fails-track_all id [] = unfold lookup in refl
fails-track_all id (ev ∷ history) =
    fails-track ev id (track_all history) history (fails-track_all id history)

abbrev pub spawn_of : String → Tracker → Option ℕ
spawn_of id t = (entry_or_new (lookup id t)).spawned_at

looping_sound :
    (now : ℕ) (id : String) (t : Tracker)
    → (is_crash_looping now id t).0 ≡ true
    → (crashloop_threshold ≤ fails id t) × (sustained now (spawn_of id t) ≡ false)
unfolding is_crash_looping
looping_sound now id t h = ground arith

looping_complete :
    (now : ℕ) (id : String) (t : Tracker)
    → (crashloop_threshold ≤ fails id t) × (sustained now (spawn_of id t) ≡ false)
    → (is_crash_looping now id t).0 ≡ true
unfolding is_crash_looping
looping_complete now id t h = ground arith

-- A query that finds a sustained run forgets the failures, as a cancellation would; any other query
-- changes nothing.
pub is_crash_looping_state :
    (now : ℕ) (id : String) (t : Tracker)
    → (is_crash_looping now id t).1 ≡ (
        if leb crashloop_threshold (fails id t) && sustained now (spawn_of id t)
        then reset id t
        else t)
unfolding is_crash_looping reset
is_crash_looping_state now id t = ground arith

-- After any history of spawns and exits, a daemon is reported as crash-looping exactly when at least
-- three quick failures in a row end it and no spawn of it has outlived the window.
pub is_crash_looping_iff :
    (now : ℕ) (id : String) (history : List Event)
    → ((is_crash_looping now id (track_all history)).0 ≡ true) ↔ (
        (crashloop_threshold ≤ streak id history)
        × (sustained now (spawn_of id (track_all history)) ≡ false))
is_crash_looping_iff now id history =
    rw (← fails-track_all id history)
      (looping_sound now id (track_all history), looping_complete now id (track_all history))
