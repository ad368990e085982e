-- ===== src/Trigger/Replay/Bounds.antt =====
-- pkg/trigger/replay_cache.go: the map never grows past its capacity.
use dicode_core.Prelude.{ℕ, ◌<◌, ◌≤◌, String, [], ◌∷◌, arith, string_eq, length}
use dicode_core.Prelude.Dict.{delete}
use dicode_core.Trigger.Replay.{Stamps, ReplayCache, evict_from, make_room, seen}
use dicode_core.Trigger.Replay.Synced.{
  Synced, Synced-drop, evict_from-Synced, length-insert, length-delete-le,
}

evict_from-le :
    (ttl now : ℕ) (order entries : Stamps)
    → length (evict_from ttl now order entries).0 ≤ length entries
unfolding evict_from
evict_from-le ttl now [] entries = omega arith
evict_from-le ttl now ((j, u) ∷ rest) entries =
    ground (arith, evict_from-le ttl now rest (delete j entries), length-delete-le j entries)

-- The loop ends with room for one more.
make_room-lt :
    (max lo hi : ℕ) (order entries : Stamps)
    → 0 < max
    → Synced lo hi entries order
    → length (make_room max order entries).0 < max
unfolding make_room
make_room-lt max lo hi [] entries pos s = ground (arith, s.sized)
make_room-lt max lo hi ((j, u) ∷ rest) entries pos s = ground (
  arith,
  make_room-lt max lo hi rest (delete j entries) pos (Synced-drop lo hi entries j u rest s),
)

-- A cache whose map and queue are in step, and that is within a capacity that is not 0, stays
-- within it.
pub length-entries-seen :
    (lo hi now : ℕ) (d : String) (c : ReplayCache)
    → Synced lo hi c.entries c.order
    → 0 < c.max_entries
    → length c.entries ≤ c.max_entries
    → length (seen now d c).1.entries ≤ c.max_entries
unfolding seen
length-entries-seen lo hi now d c s pos fits =
    let kept = evict_from c.ttl now c.order c.entries in
    let roomy = make_room c.max_entries kept.1 kept.0 in
    ground (
      arith,
      evict_from-le c.ttl now c.order c.entries,
      length-insert d now roomy.0,
      make_room-lt c.max_entries lo hi kept.1 kept.0 pos
          (evict_from-Synced c.ttl now lo hi c.order c.entries s),
    )
