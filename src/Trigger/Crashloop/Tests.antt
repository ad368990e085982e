-- ===== src/Trigger/Crashloop/Tests.antt =====
-- Tests of pkg/trigger/crashloop.go: the theorems at a concrete history.
use dicode_core.Prelude.{◌≡◌, refl, true, false, List, [], ◌∷◌}
use dicode_core.Trigger.Crashloop.Streak.{Event, spawn, exit, streak}

abbrev crashes : List Event
crashes =
    spawn 100 "d"
    ∷ exit "d" 5 false
    ∷ exit "other" 0 true
    ∷ exit "d" 5 false
    ∷ exit "d" 5 false
    ∷ exit "d" 5 true
    ∷ []

three : streak "d" crashes ≡ 3
unfolding streak
three = refl
