-- ===== src/Trigger/Replay/Runs.antt =====
-- pkg/trigger/replay_cache.go: what a digest's record survives.
use dicode_core.Prelude.{
  ℕ, ◌+◌, ◌<◌, ◌≤◌, String, ◌≡◌, refl, ◌≢◌, ◌⊎◌, inl, inr, true, false, some, List, [], ◌∷◌, ◌++◌,
  arith, ltb, leb, string_eq, length, Bool-cases, All,
}
use dicode_core.Prelude.Dict.{lookup, delete}
use dicode_core.Trigger.Replay.{Stamps, ReplayCache, evict_from, make_room, within_ttl, seen}
use dicode_core.Trigger.Replay.Synced.{
  Distinct, Synced, Synced-drop, evict_from-Synced, lookup-head, lookup-tail,
}
use dicode_core.Trigger.Replay.Rejects.{length-concat, seen-Synced}

-- The queue holds the record of `d`, with at most `k` younger ones behind it.
abbrev pub Holds : String → ℕ → ℕ → Stamps → Type 0
Holds d t k [] = ⊥
Holds d t k ((j, u) ∷ rest) = (j ≡ d) × (u ≡ t) × (length rest ≤ k) ⊎ Holds d t k rest

Holds-tail :
    (d : String) (t k : ℕ) (j : String) (u : ℕ) (rest : Stamps)
    → Holds d t k ((j, u) ∷ rest)
    → ¬ ((j ≡ d) × (u ≡ t) × (length rest ≤ k))
    → Holds d t k rest
Holds-tail d t k j u rest (inl here) other = absurd (other here)
Holds-tail d t k j u rest (inr h) other = h

Holds-lookup :
    (d : String) (t k : ℕ) (order : Stamps)
    → Distinct order
    → Holds d t k order
    → lookup d order ≡ some t
Holds-lookup d t k [] s h = absurd h
Holds-lookup d t k ((j, u) ∷ rest) (fresh, s) (inl (e, e', le)) =
    rw (← e, ← e') (lookup-head j u rest)
Holds-lookup d t k ((j, u) ∷ rest) (fresh, s) (inr h) =
    ground (arith, Holds-lookup d t k rest s h, lookup-tail j d u rest fresh)

Holds-concat :
    (d : String) (t k : ℕ) (order : Stamps) (r : String × ℕ)
    → Holds d t k order
    → Holds d t (k + 1) (order ++ r ∷ [])
Holds-concat d t k [] r h = absurd h
Holds-concat d t k ((j, u) ∷ rest) r (inl (e, e', le)) =
    inl (e, e', omega (arith, length-concat rest r))
Holds-concat d t k ((j, u) ∷ rest) r (inr h) = inr (Holds-concat d t k rest r h)

Holds-mono : (d : String) (t k : ℕ) (order : Stamps) → Holds d t k order → Holds d t (k + 1) order
Holds-mono d t k [] h = absurd h
Holds-mono d t k ((j, u) ∷ rest) (inl (e, e', le)) = inl (e, e', omega arith)
Holds-mono d t k ((j, u) ∷ rest) (inr h) = inr (Holds-mono d t k rest h)

evict_from-Holds :
    (ttl now : ℕ) (order entries : Stamps) (d : String) (t k : ℕ)
    → now < t + ttl
    → Holds d t k order
    → Holds d t k (evict_from ttl now order entries).1
unfolding evict_from
evict_from-Holds ttl now [] entries d t k young h = h
evict_from-Holds ttl now ((j, u) ∷ rest) entries d t k young h =
    elim (Bool-cases (ltb (u + ttl) now)) [
      | inl e ↦
          rw (e, evict_from)
            (evict_from-Holds ttl now rest (delete j entries) d t k young
              (Holds-tail d t k j u rest h (λ here. ground (arith, here, young, e))))
      | inr e ↦ rw (e, evict_from) h
    ]

make_room-Holds :
    (max lo hi : ℕ) (order entries : Stamps) (d : String) (t k : ℕ)
    → k + 1 < max
    → Synced lo hi entries order
    → Holds d t k order
    → Holds d t k (make_room max order entries).1
unfolding make_room
make_room-Holds max lo hi [] entries d t k small s h = h
make_room-Holds max lo hi ((j, u) ∷ rest) entries d t k small s h =
    elim (Bool-cases (leb max (length entries))) [
      | inl e ↦
          rw (e, make_room)
            (make_room-Holds max lo hi rest (delete j entries) d t k small
              (Synced-drop lo hi entries j u rest s)
              (Holds-tail d t k j u rest h (λ here. ground (arith, here, small, e, s.sized))))
      | inr e ↦ rw (e, make_room) h
    ]

module _ (lo hi now : ℕ) (c : ReplayCache) (s : Synced lo hi c.entries c.order) where
  -- A call for any digest leaves the record of `d` where it is in time and there is room.
  seen-Holds :
      (d other : String) (t k : ℕ)
      → now < t + c.ttl
      → k + 1 < c.max_entries
      → Holds d t k c.order
      → Holds d t (k + 1) (seen now other c).1.order
  unfolding seen
  seen-Holds d other t k young small h =
      let kept = evict_from c.ttl now c.order c.entries in
      let h' = evict_from-Holds c.ttl now c.order c.entries d t k young h in
      let s' = evict_from-Synced c.ttl now lo hi c.order c.entries s in
      elim (Bool-cases (within_ttl c.ttl now (lookup other kept.0))) [
        | inl e ↦ rw (e, seen) (Holds-mono d t k kept.1 h')
        | inr e ↦
            rw (e, seen)
              (Holds-concat d t k _ (other, now)
                (make_room-Holds c.max_entries lo hi kept.1 kept.0 d t k small s' h'))
      ]

  seen_again :
      (d : String) (t k : ℕ) → now < t + c.ttl → Holds d t k c.order → (seen now d c).0 ≡ true
  unfolding seen
  seen_again d t k young h =
      let h' = evict_from-Holds c.ttl now c.order c.entries d t k young h in
      let s' = evict_from-Synced c.ttl now lo hi c.order c.entries s in
      ground (arith, s'.same d, Holds-lookup d t k _ s'.distinct h')

-- Calls one after another, each a time and a digest.
unfoldable pub run : List (ℕ × String) → ReplayCache → ReplayCache
run [] c = c
run ((now, d) ∷ calls) c = run calls (seen now d c).1

-- The clock does not go back, and no digest comes exactly `ttl` after its record.
abbrev pub Regular : ℕ → ReplayCache → List (ℕ × String) → Type 0
Regular hi c [] = Unit
Regular hi c ((now, d) ∷ calls) =
    (hi ≤ now)
    × ((t : ℕ) → lookup d c.order ≡ some t → t + c.ttl ≢ now)
    × Regular now (seen now d c).1 calls

ttl-seen : (now : ℕ) (d : String) (c : ReplayCache) → (seen now d c).1.ttl ≡ c.ttl
unfolding seen
ttl-seen now d c = ground arith

max_entries-seen :
    (now : ℕ) (d : String) (c : ReplayCache) → (seen now d c).1.max_entries ≡ c.max_entries
unfolding seen
max_entries-seen now d c = ground arith

seen_after_run :
    (calls : List (ℕ × String)) (lo hi later : ℕ) (d : String) (t k : ℕ) (c : ReplayCache)
    → Synced lo hi c.entries c.order
    → Regular hi c calls
    → All (λ call. call.0 < t + c.ttl) calls
    → later < t + c.ttl
    → k + length calls < c.max_entries
    → Holds d t k c.order
    → (seen later d (run calls c)).0 ≡ true
unfolding run
seen_after_run [] lo hi later d t k c s r young end room h = seen_again lo hi later c s d t k end h
seen_after_run ((now, o) ∷ calls) lo hi later d t k c s (le, tie, r) (y, young) end room h =
    seen_after_run calls lo now later d t (k + 1) (seen now o c).1
      (seen-Synced lo hi now o c s le tie) r (rw (ttl-seen now o c) young)
      (rw (ttl-seen now o c) end) (rw (max_entries-seen now o c) (omega arith))
      (seen-Holds lo hi now c s d o t k y (omega arith) h)

Holds-last : (d : String) (t : ℕ) (order : Stamps) → Holds d t 0 (order ++ (d, t) ∷ [])
Holds-last d t [] = inl (refl, refl, omega arith)
Holds-last d t ((j, u) ∷ rest) = inr (Holds-last d t rest)

Holds-new :
    (d : String) (t : ℕ) (c : ReplayCache)
    → (seen t d c).0 ≡ false
    → Holds d t 0 (seen t d c).1.order
unfolding seen
Holds-new d t c new =
    let kept = evict_from c.ttl t c.order c.entries in
    elim (Bool-cases (within_ttl c.ttl t (lookup d kept.0))) [
      | inl e ↦ absurd (ground (arith, e))
      | inr e ↦ rw (e, seen) (Holds-last d t _)
    ]

-- A body that was accepted is rejected whenever it comes again within `ttl`, through any calls in
-- between that are fewer than the capacity, where map and queue were in step, the clock does not go
-- back and no body comes exactly `ttl` after its record.
pub replay_rejected :
    (d : String) (lo hi t later : ℕ) (c : ReplayCache) (calls : List (ℕ × String))
    → Synced lo hi c.entries c.order
    → hi ≤ t
    → ((u : ℕ) → lookup d c.order ≡ some u → u + c.ttl ≢ t)
    → (seen t d c).0 ≡ false
    → Regular t (seen t d c).1 calls
    → All (λ call. call.0 < t + c.ttl) calls
    → later < t + c.ttl
    → length calls < c.max_entries
    → (seen later d (run calls (seen t d c).1)).0 ≡ true
replay_rejected d lo hi t later c calls s le tie new r young end room =
    seen_after_run calls lo t later d t 0 (seen t d c).1 (seen-Synced lo hi t d c s le tie) r
      (rw (ttl-seen t d c) young) (rw (ttl-seen t d c) end)
      (rw (max_entries-seen t d c) (omega arith)) (Holds-new d t c new)
