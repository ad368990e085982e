-- ===== src/Trigger/Daemon/Backoff.antt =====
-- pkg/trigger/daemon.go: how long a daemon waits before it starts again.
use dicode_core.Prelude.{
  ℕ, ◌*◌, ◌≤◌, String, ◌≡◌, refl, sym, subst, Bool, true, false, some, List, if◌then◌else◌,
  string_eq, nat_eq, arith, Option-cases, Bool-cases, inl, inr, leb, ltb,
}
use dicode_core.Prelude.Dict.{lookup, insert, lookup-insert, lookup-insert_self}
use dicode_core.Trigger.Slots.{DaemonSlot, slot_key_eq, claim, attach, evicted}
use dicode_core.Trigger.Crashloop.{daemon_stable_threshold}
use dicode_core.Trigger.Daemon.{
  RunStatus, Spec, Engine, daemon_backoff_init, daemon_backoff_max, backoff_for, next_backoff,
  exit_decision, after_backoff, launch_begin, launch_end, launch_daemon, restarts,
}

-- Every stored backoff is within the bounds.
abbrev pub Bounded : List (String × ℕ) → Type 0
Bounded m =
    (id : String) (b : ℕ)
    → lookup id m ≡ some b
    → (daemon_backoff_init ≤ b) × (b ≤ daemon_backoff_max)

insert-Bounded :
    (id : String) (b : ℕ) (m : List (String × ℕ))
    → Bounded m
    → daemon_backoff_init ≤ b
    → b ≤ daemon_backoff_max
    → Bounded (insert id b m)
insert-Bounded id b m all lo hi j c found = ground (arith, found, lookup-insert id j b m, all j c)

backoff_for-le :
    (elapsed : ℕ) (id : String) (e : Engine)
    → Bounded e.backoffs
    → (daemon_backoff_init ≤ backoff_for elapsed id e)
      × (backoff_for elapsed id e ≤ daemon_backoff_max)
unfolding backoff_for
backoff_for-le elapsed id e all = elim (Option-cases (lookup id e.backoffs)) [
  | inl none_left ↦ ground (arith, none_left)
  | inr (b, found) ↦ ground (arith, found, all id b found)
]

-- Where every stored backoff lies between one and thirty seconds, an exit sleeps for a time between
-- those, and leaves them so.
pub exit_decision-Bounded :
    (spec : Spec) (status : RunStatus) (elapsed b : ℕ) (e : Engine)
    → Bounded e.backoffs
    → (exit_decision spec status elapsed e).0 ≡ some b
    → (daemon_backoff_init ≤ b)
      × (b ≤ daemon_backoff_max)
      × Bounded (exit_decision spec status elapsed e).1.backoffs
unfolding exit_decision
exit_decision-Bounded spec status elapsed b e all s =
    let (lo, hi) = backoff_for-le elapsed spec.id e all in
    elim (Bool-cases (restarts spec.restart status)) [
      | inr no_it ↦ absurd (ground (arith, no_it, s))
      | inl yes_it ↦
          let same : backoff_for elapsed spec.id e ≡ b = ground (arith, yes_it, s) in
          (
            ground (arith, same, lo),
            ground (arith, same, hi),
            rw (yes_it, exit_decision) (insert-Bounded spec.id _ e.backoffs all lo hi),
          )
    ]

backoffs-launch_end :
    (f : Bool) (run : String) (spec : Spec) (slot : DaemonSlot) (e : Engine)
    → (launch_end f run spec slot e).backoffs ≡ e.backoffs
unfolding launch_end
backoffs-launch_end true run spec slot e = refl
backoffs-launch_end false run spec slot e = elim (Bool-cases (evicted (some slot) e.slots)) [
  | inl t ↦ rw (t, launch_end) refl
  | inr f ↦ rw (f, launch_end) refl
]

backoffs-launch_daemon :
    (now : ℕ) (f : Bool) (run : String) (spec : Spec) (slot : DaemonSlot) (e : Engine)
    → (launch_daemon now run f spec slot e).backoffs ≡ e.backoffs
unfolding launch_daemon launch_begin
backoffs-launch_daemon now f run spec slot e =
    elim (Bool-cases (attach (some slot) run e.slots).0) [
      | inl t ↦ rw (t, launch_daemon, launch_begin) (backoffs-launch_end f run spec slot _)
      | inr g ↦ rw (g, launch_daemon, launch_begin) refl
    ]

pub backoffs-after_backoff :
    (backoff now : ℕ) (run : String) (f : Bool) (spec : Spec) (e : Engine)
    → (after_backoff backoff now run f spec e).backoffs
      ≡ insert spec.id (next_backoff backoff) e.backoffs
unfolding after_backoff
backoffs-after_backoff backoff now run f spec e = elim (Bool-cases e.shutting_down) [
  | inl down ↦ rw (down, after_backoff) refl
  | inr up ↦ elim (Option-cases (claim spec.id e.slots).0) [
    | inl busy ↦ rw (up, after_backoff) (rw busy refl)
    | inr (h, got) ↦ elim (Option-cases (lookup spec.id e.specs)) [
      | inl gone ↦ rw (up, after_backoff) (rw got (rw gone refl))
      | inr (cur, there) ↦
          rw (up, after_backoff) (rw got (rw there (backoffs-launch_daemon now f run cur h _)))
    ]
  ]
]

-- The backoff doubles with every quick exit, up to thirty seconds: after a sleep of `b`, whatever it
-- led to, the next exit of that daemon within ten seconds of its start sleeps for twice `b` or for
-- the maximum, and a stable run starts again at one second.
pub backoff_for-after_backoff :
    (b now elapsed : ℕ) (run : String) (f : Bool) (spec : Spec) (e : Engine)
    → backoff_for elapsed spec.id (after_backoff b now run f spec e) ≡ (
        if leb daemon_stable_threshold elapsed
        then daemon_backoff_init
        else if ltb daemon_backoff_max (b * 2)
        then daemon_backoff_max
        else b * 2)
unfolding backoff_for
backoff_for-after_backoff b now elapsed run f spec e =
    rw (backoffs-after_backoff b now run f spec e)
      (rw (lookup-insert_self spec.id (next_backoff b) e.backoffs) refl)

-- The sleep's end keeps every stored backoff between one and thirty seconds.
pub after_backoff-Bounded :
    (b now : ℕ) (run : String) (f : Bool) (spec : Spec) (e : Engine)
    → Bounded e.backoffs
    → daemon_backoff_init ≤ b
    → Bounded (after_backoff b now run f spec e).backoffs
after_backoff-Bounded b now run f spec e all lo =
    subst Bounded (sym (backoffs-after_backoff b now run f spec e))
      (insert-Bounded spec.id (next_backoff b) e.backoffs all (ground (arith, lo)) (ground arith))
