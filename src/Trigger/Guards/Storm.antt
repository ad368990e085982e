-- ===== src/Trigger/Guards/Storm.antt =====
-- pkg/trigger/engine_guardrails.go: the storm breaker against the whole history of fires.
use mathlib.Core.List.{append-nil, append_assoc}
use dicode_core.Prelude.{
  ℕ, ◌+◌, ◌≤◌, ◌<◌, String, ◌≡◌, refl, some, List, [], ◌∷◌, ◌++◌, length, arith, ltb, if◌then◌else◌,
  string_eq, filter,
}
use dicode_core.Prelude.Dict.{lookup, lookup-insert_self}
use dicode_core.Trigger.Guards.{
  ChainGuards, new_chain_guards, fires_of, in_window, observe_chain_fire,
}

-- The fires of `history` that the window still covers at `now`.
abbrev pub recent : ℕ → ℕ → List ℕ → List ℕ
recent now window history = filter (in_window now window) history

-- Pruning at an earlier time loses nothing that a later window covers.
recent-recent :
    (last now window : ℕ) (history : List ℕ)
    → last ≤ now
    → recent now window (recent last window history) ≡ recent now window history
recent-recent last now window [] le = refl
recent-recent last now window (t ∷ history) le =
    ground (arith, recent-recent last now window history le)

recent-append :
    (now window : ℕ) (history more : List ℕ)
    → recent now window (history ++ more) ≡ recent now window history ++ recent now window more
recent-append now window [] more = refl
recent-append now window (t ∷ history) more = ground (arith, recent-append now window history more)

abbrev pub stored : String → ChainGuards → List ℕ
stored scope g = fires_of (lookup scope g.storm_fires)

recent-now : (now window : ℕ) → 0 < window → recent now window (now ∷ []) ≡ now ∷ []
recent-now now window wide = ground arith

-- Times in order, from `last` on.
abbrev pub Rises : ℕ → List ℕ → Type 0
Rises last [] = Unit
Rises last (now ∷ times) = (last ≤ now) × Rises now times

abbrev pub last_of : ℕ → List ℕ → ℕ
last_of last [] = last
last_of last (now ∷ times) = last_of now times

-- The fires of one scope, one after another.
unfoldable pub observe_all : String → ℕ → ℕ → ℕ → List ℕ → ChainGuards → ChainGuards
observe_all scope rate window suppress [] g = g
observe_all scope rate window suppress (now ∷ times) g =
    observe_all scope rate window suppress times
      (observe_chain_fire scope rate window suppress now g)

module _ (scope : String) (rate window suppress : ℕ) (on : 0 < rate) (wide : 0 < window) where
  observe-stored :
      (now : ℕ) (g : ChainGuards)
      → stored scope (observe_chain_fire scope rate window suppress now g)
        ≡ recent now window (stored scope g) ++ now ∷ []
  unfolding observe_chain_fire
  observe-stored now g = ground (
    arith,
    lookup-insert_self scope (recent now window (stored scope g) ++ now ∷ []) g.storm_fires,
  )

  trips :
      (now : ℕ) (g : ChainGuards)
      → let g' = observe_chain_fire scope rate window suppress now g in
        lookup scope g'.storm_suppressed_until ≡ (
          if ltb rate (length (stored scope g'))
          then some (now + suppress)
          else lookup scope g.storm_suppressed_until)
  unfolding observe_chain_fire
  trips now g = ground (
    arith,
    lookup-insert_self scope (now + suppress) g.storm_suppressed_until,
    lookup-insert_self scope (recent now window (stored scope g) ++ now ∷ []) g.storm_fires,
  )

  step-stored :
      (last now : ℕ) (history : List ℕ) (g : ChainGuards)
      → last ≤ now
      → stored scope g ≡ recent last window history
      → stored scope (observe_chain_fire scope rate window suppress now g)
        ≡ recent now window (history ++ now ∷ [])
  step-stored last now history g le h = cc (
    observe-stored now g,
    h,
    recent-recent last now window history le,
    recent-append now window history (now ∷ []),
    recent-now now window wide,
  )

  observe_all-stored :
      (times history : List ℕ) (last : ℕ) (g : ChainGuards)
      → Rises last times
      → stored scope g ≡ recent last window history
      → stored scope (observe_all scope rate window suppress times g)
        ≡ recent (last_of last times) window (history ++ times)
  unfolding observe_all
  observe_all-stored [] history last g r h = rw append-nil h
  observe_all-stored (now ∷ times) history last g (le, r) h =
      rw (← append_assoc history (now ∷ []) times) (
        observe_all-stored times (history ++ now ∷ []) now
          (observe_chain_fire scope rate window suppress now g) r
          (step-stored last now history g le h))

  -- Over a history of fires whose times do not go back, on guards that start empty: the breaker trips on a fire exactly when more than `rate` fires of the whole history are still
  -- within the window, and otherwise leaves the deadline as it was.
  pub storm_breaker :
      (times : List ℕ) (now : ℕ)
      → Rises 0 times
      → last_of 0 times ≤ now
      → let g = observe_all scope rate window suppress times new_chain_guards in
        lookup scope (observe_chain_fire scope rate window suppress now g).storm_suppressed_until
        ≡ (if ltb rate (length (recent now window (times ++ now ∷ [])))
            then some (now + suppress)
            else lookup scope g.storm_suppressed_until)
  storm_breaker times now r le =
      let g = observe_all scope rate window suppress times new_chain_guards in
      let h = observe_all-stored times [] 0 new_chain_guards r (unfold lookup in refl) in
      ground
        (arith, trips now g, observe-stored now g, step-stored (last_of 0 times) now times g le h)
