-- ===== src/Trigger/Replay/Tests.antt =====
-- Tests of pkg/trigger/replay_cache.go: the theorems at concrete caches.
use dicode_core.Prelude.{
  ℕ, String, ◌≡◌, refl, true, false, Option, none, some, [], ◌∷◌, arith, string_eq,
}
use dicode_core.Prelude.Dict.{lookup}
use dicode_core.Trigger.Replay.{new_replay_cache, evict_from, make_room, seen}
use dicode_core.Trigger.Replay.Synced.{Synced}
use dicode_core.Trigger.Replay.Runs.{run, Regular, replay_rejected}
use dicode_core.Trigger.Replay.Fresh.{seen-exact_ttl}

new-Synced : (ttl : ℕ) → Synced 0 0 (new_replay_cache ttl).entries (new_replay_cache ttl).order
new-Synced ttl = record {
  same = λ d. refl;
  distinct = tt;
  rising = omega arith;
  sized = omega arith;
}

no_record : (d : String) (t : ℕ) {A : Type 0} → lookup {V = ℕ} d [] ≡ some t → A
unfolding lookup
no_record d t h = absurd (cc)

accepted : (seen 50 "b" (new_replay_cache 10)).0 ≡ false
unfolding seen evict_from make_room lookup
accepted = refl

seen-exact_ttl_example :
    let c1 = (seen 50 "b" (new_replay_cache 10)).1 in
    let (second, c2) = seen 60 "b" c1 in (second ≡ false) × ((seen 63 "b" c2).0 ≡ false)
seen-exact_ttl_example = seen-exact_ttl "b" 50 10 3 (omega arith) (omega arith)

none_left : {A : Type 0} (o : Option ℕ) (t : ℕ) → o ≡ none → o ≡ some t → A
none_left o t e h = absurd (cc)

calls-Regular : Regular 50 (seen 50 "b" (new_replay_cache 10)).1 ((55, "x") ∷ [])
unfolding seen evict_from make_room lookup
calls-Regular = (omega arith, λ t h. none_left none t refl h, tt)

replay_rejected_example :
    (seen 58 "b" (run ((55, "x") ∷ []) (seen 50 "b" (new_replay_cache 10)).1)).0 ≡ true
replay_rejected_example =
    replay_rejected "b" 0 0 50 58 (new_replay_cache 10) ((55, "x") ∷ []) (new-Synced 10)
      (omega arith) (λ t h. no_record "b" t h) accepted calls-Regular (omega arith, tt)
      (omega arith) (omega arith)
