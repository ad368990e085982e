-- ===== src/Trigger/Replay.antt =====
-- pkg/trigger/replay_cache.go: the nonce cache that rejects repeated webhook bodies.
-- A mutex makes `seen` one step; `now` is the clock that it reads, in nanoseconds.
pub mod Bounds
pub mod Synced
pub mod Rejects
pub mod Runs
pub mod Fresh
mod Tests
use dicode_core.Prelude.{
  ℕ, ◌+◌, String, Bool, true, false, Option, none, some, List, [], ◌∷◌, ◌++◌, length, ltb, leb,
  if◌then◌else◌, string_eq,
}
use dicode_core.Prelude.Dict.{lookup, insert, delete}

abbrev pub Stamps : Type 0
Stamps = List (String × ℕ)

-- `order` has its oldest record first.
pub record ReplayCache : Type 0 where
  pub ttl : ℕ
  pub max_entries : ℕ
  pub entries : Stamps
  pub order : Stamps

abbrev pub default_replay_cache_max : ℕ
default_replay_cache_max = 10_000

abbrev pub new_replay_cache : ℕ → ReplayCache
new_replay_cache ttl = record {
  ttl = ttl;
  max_entries = default_replay_cache_max;
  entries = [];
  order = [];
}

-- The loop of `evictExpired`, over the order and the entries.
unfoldable pub evict_from : ℕ → ℕ → Stamps → Stamps → Stamps × Stamps
evict_from ttl now [] entries = (entries, [])
evict_from ttl now ((d, t) ∷ rest) entries =
    let more = evict_from ttl now rest (delete d entries) in
    if ltb (t + ttl) now then more else (entries, (d, t) ∷ rest)

-- The loop that makes room for one more entry.
unfoldable pub make_room : ℕ → Stamps → Stamps → Stamps × Stamps
make_room max [] entries = (entries, [])
make_room max ((d, t) ∷ rest) entries =
    let more = make_room max rest (delete d entries) in
    if leb max (length entries) then more else (entries, (d, t) ∷ rest)

abbrev pub within_ttl : ℕ → ℕ → Option ℕ → Bool
within_ttl ttl now none = false
within_ttl ttl now (some t) = ltb now (t + ttl)

unfoldable pub seen : ℕ → String → ReplayCache → Bool × ReplayCache
seen now digest c =
    let (entries, order) = evict_from c.ttl now c.order c.entries in
    if within_ttl c.ttl now (lookup digest entries)
    then (true, record c { entries = entries; order = order })
    else (let (entries', order') = make_room c.max_entries order entries in
        (
          false,
          record c { entries = insert digest now entries'; order = order' ++ (digest, now) ∷ [] },
        ))
