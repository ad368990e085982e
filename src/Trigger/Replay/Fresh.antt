-- ===== src/Trigger/Replay/Fresh.antt =====
-- pkg/trigger/replay_cache.go: what the record of a digest that was seen again at the very end of its
-- time does to the newer one.
use text.Mathlib.TextPositions.{eq_refl}
use dicode_core.Prelude.{ℕ, ◌+◌, ◌<◌, String, ◌≡◌, refl, false, [], ◌∷◌, arith, string_eq}
use dicode_core.Prelude.Dict.{lookup, insert, delete}
use dicode_core.Trigger.Replay.{ReplayCache, new_replay_cache, evict_from, make_room, seen}

-- The cache after a first copy at `t`, and after a second one at `t + ttl`.
abbrev after_one : String → ℕ → ℕ → ReplayCache
after_one d t ttl = record (new_replay_cache ttl) { entries = (d, t) ∷ []; order = (d, t) ∷ [] }

abbrev after_two : String → ℕ → ℕ → ReplayCache
after_two d t ttl = record (new_replay_cache ttl) {
  entries = (d, t + ttl) ∷ [];
  order = (d, t) ∷ (d, t + ttl) ∷ [];
}

seen-second :
    (d : String) (t ttl : ℕ) → seen (t + ttl) d (after_one d t ttl) ≡ (false, after_two d t ttl)
unfolding seen evict_from make_room lookup insert delete
seen-second d t ttl = ground (arith, eq_refl d)

seen-third :
    (d : String) (t ttl gap : ℕ)
    → 0 < gap
    → gap < ttl
    → (seen (t + ttl + gap) d (after_two d t ttl)).0 ≡ false
unfolding seen evict_from make_room lookup insert delete
seen-third d t ttl gap pos short = ground (arith, eq_refl d)

-- A body that comes again exactly `ttl` after it was first seen is accepted, as it should be, but a
-- third copy is accepted too, although it comes sooner than `ttl` after the second.
pub seen-exact_ttl :
    (d : String) (t ttl gap : ℕ)
    → 0 < gap
    → gap < ttl
    → let c1 = (seen t d (new_replay_cache ttl)).1 in
      let (second, c2) = seen (t + ttl) d c1 in
      (second ≡ false) × ((seen (t + ttl + gap) d c2).0 ≡ false)
unfolding seen evict_from make_room lookup insert delete
seen-exact_ttl d t ttl gap pos short =
    rw (seen-second d t ttl) (refl, seen-third d t ttl gap pos short)
