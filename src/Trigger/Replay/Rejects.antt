-- ===== src/Trigger/Replay/Rejects.antt =====
-- pkg/trigger/replay_cache.go: a digest is not accepted twice within its time.
use dicode_core.Prelude.{
  ℕ, ◌+◌, ◌≤◌, String, ◌≡◌, ◌≢◌, inl, inr, none, some, [], ◌∷◌, ◌++◌, arith, string_eq, length,
  Bool-cases, length-append,
}
use dicode_core.Prelude.Dict.{lookup, insert, delete, lookup-insert}
use dicode_core.Trigger.Replay.{Stamps, ReplayCache, evict_from, make_room, within_ttl, seen}
use dicode_core.Trigger.Replay.Synced.{
  Rising, Synced, Rising-append, evict_from-Synced, make_room-Synced, evict_from-none,
  lookup-append, Distinct-append, length-insert, lookup-cons-none,
}

pub length-concat : (order : Stamps) (r : String × ℕ) → length (order ++ r ∷ []) ≡ length order + 1
length-concat order r = omega (arith, length-append order (r ∷ []))

Rising-upper :
    (lo hi now : ℕ) (order : Stamps) → hi ≤ now → Rising lo hi order → Rising lo now order
Rising-upper lo hi now [] le r = omega arith
Rising-upper lo hi now ((d, t) ∷ rest) le (r, rs) = (r, Rising-upper t hi now rest le rs)

Synced-upper :
    (lo hi now : ℕ) (entries order : Stamps)
    → hi ≤ now
    → Synced lo hi entries order
    → Synced lo now entries order
Synced-upper lo hi now entries order le s = record {
  same = s.same;
  distinct = s.distinct;
  rising = Rising-upper lo hi now order le s.rising;
  sized = s.sized;
}

make_room-none :
    (max : ℕ) (order entries : Stamps) (d : String)
    → lookup d order ≡ none
    → lookup d (make_room max order entries).1 ≡ none
unfolding make_room
make_room-none max [] entries d h = h
make_room-none max ((j, u) ∷ rest) entries d h =
    ground
      (arith, h, make_room-none max rest (delete j entries) d (lookup-cons-none d j u rest h).0)

Synced-append :
    (lo hi now : ℕ) (entries order : Stamps) (d : String)
    → Synced lo hi entries order
    → hi ≤ now
    → lookup d order ≡ none
    → Synced lo now (insert d now entries) (order ++ (d, now) ∷ [])
Synced-append lo hi now entries order d s le new = record {
  same =
      λ j. ground (arith, lookup-insert d j now entries, lookup-append d j now order new, s.same j);
  distinct = Distinct-append d now order new s.distinct;
  rising = Rising-append lo hi now order d le s.rising;
  sized = ground (arith, length-concat order (d, now), length-insert d now entries, s.sized);
}

module _ (lo hi now : ℕ) (d : String) (c : ReplayCache) (s : Synced lo hi c.entries c.order) where
  abbrev kept : Stamps × Stamps
  kept = evict_from c.ttl now c.order c.entries

  abbrev roomy : Stamps × Stamps
  roomy = make_room c.max_entries kept.1 kept.0

  -- One call of `seen` on a cache whose map and queue are in step, at a time that is not before the last one's, keeps them so, if
  -- the digest is not one that was accepted exactly `ttl` before.
  pub seen-Synced :
      hi ≤ now
      → ((t : ℕ) → lookup d c.order ≡ some t → t + c.ttl ≢ now)
      → Synced lo now (seen now d c).1.entries (seen now d c).1.order
  unfolding seen
  seen-Synced le tie =
      let s' = evict_from-Synced c.ttl now lo hi c.order c.entries s in
      elim (Bool-cases (within_ttl c.ttl now (lookup d kept.0))) [
        | inl e ↦ rw (e, seen) (Synced-upper lo hi now kept.0 kept.1 le s')
        | inr e ↦
            let new = evict_from-none c.ttl now lo hi c.order c.entries d s e tie in
            rw (e, seen)
              (Synced-append lo hi now roomy.0 roomy.1 d
                (make_room-Synced c.max_entries lo hi kept.1 kept.0 s') le
                (make_room-none c.max_entries kept.1 kept.0 d new))
      ]
