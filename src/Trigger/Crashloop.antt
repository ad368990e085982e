-- ===== src/Trigger/Crashloop.antt =====
-- pkg/trigger/crashloop.go: when a daemon is reported as crash-looping.
-- Times and durations are nanoseconds; the zero time is `none`.
pub mod Streak
mod Tests
use dicode_core.Prelude.{
  ℕ, suc, ◌+◌, ◌*◌, String, Bool, true, false, ◌||◌, Option, none, some, List, [], ◌∷◌, ltb, leb,
  if◌then◌else◌, string_eq,
}
use dicode_core.Prelude.Dict.{lookup, insert, delete}

abbrev pub crashloop_threshold : ℕ
crashloop_threshold = 3

abbrev pub second : ℕ
second = 1_000_000_000

abbrev pub daemon_stable_threshold : ℕ
daemon_stable_threshold = 10 * second

abbrev pub crashloop_sustain_window : ℕ
crashloop_sustain_window = daemon_stable_threshold

pub record CrashloopEntry : Type 0 where
  pub quick_fails : ℕ
  pub spawned_at : Option ℕ

abbrev pub Tracker : Type 0
Tracker = List (String × CrashloopEntry)

unfoldable pub note_spawn : ℕ → String → Tracker → Tracker
note_spawn now id t = elim (lookup id t) [
  | none ↦ t
  | some e ↦ insert id (record e { spawned_at = some now }) t
]

-- The entry that `noteExit` counts in: a new one where there is none.
abbrev pub entry_or_new : Option CrashloopEntry → CrashloopEntry
entry_or_new none = record { quick_fails = 0; spawned_at = none }
entry_or_new (some e) = e

unfoldable pub note_exit : String → ℕ → Bool → Tracker → ℕ × Tracker
note_exit id elapsed clean t =
    if clean || leb crashloop_sustain_window elapsed
    then (0, delete id t)
    else (let fails = suc (entry_or_new (lookup id t)).quick_fails in
        (fails, insert id (record { quick_fails = fails; spawned_at = none }) t))

unfoldable pub clear_spawn : String → Tracker → Tracker
clear_spawn id t = elim (lookup id t) [
  | none ↦ t
  | some e ↦ insert id (record e { spawned_at = none }) t
]

unfoldable pub reset : String → Tracker → Tracker
reset id t = delete id t

-- Whether a spawn has outlived the window by `now`.
abbrev pub sustained : ℕ → Option ℕ → Bool
sustained now none = false
sustained now (some t) = leb (t + crashloop_sustain_window) now

unfoldable pub is_crash_looping : ℕ → String → Tracker → Bool × Tracker
is_crash_looping now id t = elim (lookup id t) [
  | none ↦ (false, t)
  | some e ↦
      if ltb e.quick_fails crashloop_threshold
      then (false, t)
      else if sustained now e.spawned_at
      then (false, delete id t)
      else (true, t)
]
