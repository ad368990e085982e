-- ===== src/Trigger/Replay/Synced.antt =====
-- pkg/trigger/replay_cache.go: the map and the queue hold the same records, oldest first.
use native.Mathlib.Nat.{le_refl}
use text.Mathlib.TextEquality.{eq_iff}
use dicode_core.Prelude.{
  ℕ, ◌+◌, ◌<◌, ◌≤◌, String, ◌≡◌, refl, ◌≢◌, inl, inr, false, none, some, [], ◌∷◌, ◌++◌, arith, ltb,
  leb, string_eq, ◌==◌, length, Option-cases, Bool-cases, ◌∙◌, if◌then◌else◌,
}
use dicode_core.Prelude.Dict.{lookup, insert, delete, lookup-delete}
use dicode_core.Trigger.Replay.{Stamps, evict_from, make_room, within_ttl}

abbrev pub Distinct : Stamps → Type 0
Distinct [] = Unit
Distinct ((d, t) ∷ rest) = (lookup d rest ≡ none) × Distinct rest

-- The times rise from `lo` to `hi`.
abbrev pub Rising : ℕ → ℕ → Stamps → Type 0
Rising lo hi [] = lo ≤ hi
Rising lo hi ((d, t) ∷ rest) = (lo ≤ t) × Rising t hi rest

pub record Synced (lo hi : ℕ) (entries order : Stamps) : Type 0 where
  pub same : (d : String) → lookup d entries ≡ lookup d order
  pub distinct : Distinct order
  pub rising : Rising lo hi order
  pub sized : length entries ≤ length order

pub length-insert : (d : String) (t : ℕ) (m : Stamps) → length (insert d t m) ≤ length m + 1
unfolding insert
length-insert d t [] = omega arith
length-insert d t ((j, w) ∷ m) = ground (arith, length-insert d t m)

pub length-delete-le : (d : String) (m : Stamps) → length (delete d m) ≤ length m
unfolding delete
length-delete-le d [] = omega arith
length-delete-le d ((j, w) ∷ m) = ground (arith, length-delete-le d m)

length-delete :
    (d : String) (m : Stamps) (t : ℕ) → lookup d m ≡ some t → length (delete d m) < length m
unfolding delete lookup
length-delete d [] t h = cc
length-delete d ((j, w) ∷ m) t h = ground (arith, length-delete-le d m, length-delete d m t)

Rising-lower :
    (lo lo' hi : ℕ) (order : Stamps) → lo ≤ lo' → Rising lo' hi order → Rising lo hi order
Rising-lower lo lo' hi [] le r = omega arith
Rising-lower lo lo' hi ((d, t) ∷ rest) le (r, rs) = (omega arith, rs)

pub lookup-head : (d : String) (t : ℕ) (rest : Stamps) → lookup d ((d, t) ∷ rest) ≡ some t
unfolding lookup
lookup-head d t rest = ground (arith, eq_iff d d)

pub lookup-tail :
    (d j : String) (t : ℕ) (rest : Stamps)
    → lookup d rest ≡ none
    → lookup j rest ≡ (if d == j then none else lookup j ((d, t) ∷ rest))
unfolding lookup
lookup-tail d j t rest h = ground (arith, eq_iff d j)

-- Both loops drop the oldest record from the queue and its digest from the map.
pub Synced-drop :
    (lo hi : ℕ) (entries : Stamps) (d : String) (t : ℕ) (rest : Stamps)
    → Synced lo hi entries ((d, t) ∷ rest)
    → Synced lo hi (delete d entries) rest
Synced-drop lo hi entries d t rest s = record {
  same =
      λ j. ground (arith, lookup-delete d j entries, s.same j, lookup-tail d j t rest s.distinct.0);
  distinct = s.distinct.1;
  rising = Rising-lower lo t hi rest s.rising.0 s.rising.1;
  sized = ground (arith, s.sized, length-delete d entries t (s.same d ∙ lookup-head d t rest));
}

pub evict_from-Synced :
    (ttl now lo hi : ℕ) (order entries : Stamps)
    → Synced lo hi entries order
    → Synced lo hi (evict_from ttl now order entries).0 (evict_from ttl now order entries).1
unfolding evict_from
evict_from-Synced ttl now lo hi [] entries s = s
evict_from-Synced ttl now lo hi ((d, t) ∷ rest) entries s =
    let more =
      evict_from-Synced ttl now lo hi rest (delete d entries)
        (Synced-drop lo hi entries d t rest s) in
    elim (Bool-cases (ltb (t + ttl) now)) [
      | inl e ↦ rw (e, evict_from) more
      | inr e ↦ rw (e, evict_from) s
    ]

pub make_room-Synced :
    (max lo hi : ℕ) (order entries : Stamps)
    → Synced lo hi entries order
    → Synced lo hi (make_room max order entries).0 (make_room max order entries).1
unfolding make_room
make_room-Synced max lo hi [] entries s = s
make_room-Synced max lo hi ((d, t) ∷ rest) entries s =
    let more =
      make_room-Synced max lo hi rest (delete d entries) (Synced-drop lo hi entries d t rest s) in
    elim (Bool-cases (leb max (length entries))) [
      | inl e ↦ rw (e, make_room) more
      | inr e ↦ rw (e, make_room) s
    ]

pub Rising-le : (lo hi : ℕ) (order : Stamps) → Rising lo hi order → lo ≤ hi
Rising-le lo hi [] r = r
Rising-le lo hi ((d, t) ∷ rest) r = omega (arith, Rising-le t hi rest r.1)

Rising-lookup :
    (lo hi : ℕ) (order : Stamps) (d : String) (t : ℕ)
    → Rising lo hi order
    → lookup d order ≡ some t
    → (lo ≤ t) × (t ≤ hi)
unfolding lookup
Rising-lookup lo hi [] d t r h = cc
Rising-lookup lo hi ((j, u) ∷ rest) d t r h =
    ground (arith, Rising-le u hi rest r.1, Rising-lookup u hi rest d t r.1)

pub Rising-append :
    (lo hi now : ℕ) (order : Stamps) (d : String)
    → hi ≤ now
    → Rising lo hi order
    → Rising lo now (order ++ (d, now) ∷ [])
Rising-append lo hi now [] d le r = omega arith
Rising-append lo hi now ((j, u) ∷ rest) d le (r, rs) = (r, Rising-append u hi now rest d le rs)

-- What eviction leaves is not older than `ttl`.
pub evict_from-young :
    (ttl now lo hi : ℕ) (order entries : Stamps) (d : String) (t : ℕ)
    → Rising lo hi order
    → lookup d (evict_from ttl now order entries).1 ≡ some t
    → now ≤ t + ttl
unfolding evict_from
evict_from-young ttl now lo hi [] entries d t r h = unfold lookup in cc
evict_from-young ttl now lo hi ((j, u) ∷ rest) entries d t r h =
    elim (Bool-cases (ltb (u + ttl) now)) [
      | inl e ↦
          evict_from-young ttl now u hi rest (delete j entries) d t r.1 (rw (e, evict_from) at h)
      | inr e ↦
          let old : u ≤ t =
            (Rising-lookup u hi ((j, u) ∷ rest) d t (le_refl u, r.1) (rw (e, evict_from) at h)).0 in
          ground arith
    ]

pub evict_from-lookup :
    (ttl now : ℕ) (order entries : Stamps) (d : String) (t : ℕ)
    → Distinct order
    → lookup d (evict_from ttl now order entries).1 ≡ some t
    → lookup d order ≡ some t
unfolding evict_from
evict_from-lookup ttl now [] entries d t s h = h
evict_from-lookup ttl now ((j, u) ∷ rest) entries d t (fresh, s) h =
    ground
      (arith, evict_from-lookup ttl now rest (delete j entries) d t s, lookup-tail j d u rest fresh)

-- A digest that was just found to be out of time is gone, unless it is of exactly `ttl`.
pub evict_from-none :
    (ttl now lo hi : ℕ) (order entries : Stamps) (d : String)
    → Synced lo hi entries order
    → within_ttl ttl now (lookup d (evict_from ttl now order entries).0) ≡ false
    → ((t : ℕ) → lookup d order ≡ some t → t + ttl ≢ now)
    → lookup d (evict_from ttl now order entries).1 ≡ none
evict_from-none ttl now lo hi order entries d s out tie =
    let s' = evict_from-Synced ttl now lo hi order entries s in
    elim (Option-cases (lookup d (evict_from ttl now order entries).1)) [
      | inl e ↦ e
      | inr (t, e) ↦
          let young = evict_from-young ttl now lo hi order entries d t s.rising e in
          let found = evict_from-lookup ttl now order entries d t s.distinct e in
          absurd (tie t found (ground (arith, s'.same d, young)))
    ]

pub lookup-append :
    (d j : String) (t : ℕ) (order : Stamps)
    → lookup d order ≡ none
    → lookup j (order ++ (d, t) ∷ []) ≡ (if d == j then some t else lookup j order)
unfolding lookup
lookup-append d j t [] h = refl
lookup-append d j t ((i, u) ∷ rest) h =
    ground (arith, eq_iff d j, eq_iff i j, eq_iff i d, lookup-append d j t rest)

pub lookup-cons-none :
    (d i : String) (u : ℕ) (rest : Stamps)
    → lookup d ((i, u) ∷ rest) ≡ none
    → (lookup d rest ≡ none) × ((d == i) ≡ false)
unfolding lookup
lookup-cons-none d i u rest h = ground (arith, eq_iff d i, eq_iff i d)

pub Distinct-append :
    (d : String) (t : ℕ) (order : Stamps)
    → lookup d order ≡ none
    → Distinct order
    → Distinct (order ++ (d, t) ∷ [])
Distinct-append d t [] h s = unfold lookup in (refl, tt)
Distinct-append d t ((i, u) ∷ rest) h (fresh, s) =
    let (gone, ne) = lookup-cons-none d i u rest h in
    (ground (arith, lookup-append d i t rest gone, ne), Distinct-append d t rest gone s)
