-- ===== src/Runtime/EnvCache/Served.antt =====
-- pkg/runtime/envresolve/cache.go: where a value that the cache gives comes from.
use text.Mathlib.TextEquality.{eq_iff}
use dicode_core.Prelude.{
  ℕ, ◌+◌, ◌<◌, String, ◌≡◌, sym, ap, subst, ◌∙◌, Bool, true, false, ◌&&◌, Option, none, some, List,
  [], ◌∷◌, any, ltb, nat_beq, arith, if◌then◌else◌, ◌==◌, string_eq, beq_refl, Bool-cases,
  Option-cases, inl, inr,
}
use dicode_core.Prelude.Dict.{lookup, lookup-insert}
use dicode_core.Runtime.EnvCache.{
  CacheKey, same_cache_key_iff, cache_key_eq, CacheEntry, Cache, bust_provider, get, put,
}

pub data Call : Type 0 where
  got : CacheKey → String → ℕ → Call
  stored : CacheKey → String → String → ℕ → ℕ → Call
  busted : String → Call

-- The cache after some calls, the newest first.
unfoldable pub after : List Call → Cache
after [] = []
after (got k hash now ∷ earlier) = (get k hash now (after earlier)).1
after (stored k hash val ttl now ∷ earlier) = put k hash val ttl now (after earlier)
after (busted id ∷ earlier) = bust_provider id (after earlier)

-- A call that stored a value under a key, for a version of the provider, until a time.
abbrev pub stores : CacheKey → CacheEntry → Call → Bool
stores k e (got k' hash now) = false
stores k e (stored k' hash val ttl now) =
    k' == k && hash == e.provider_hash && val == e.value && nat_beq (now + ttl) e.expires_at
stores k e (busted id) = false

abbrev entry_or : CacheEntry → Option CacheEntry → CacheEntry
entry_or d none = d
entry_or d (some e) = e

lookup-bust_provider :
    (id : String) (k : CacheKey) (c : Cache)
    → lookup k (bust_provider id c) ≡ (if k.provider_id == id then none else lookup k c)
unfolding bust_provider lookup
lookup-bust_provider id k [] = ground arith
lookup-bust_provider id k ((k', e) ∷ rest) = elim (Bool-cases (k' == k)) [
  | inl same ↦
      let one : (k'.provider_id == id) ≡ (k.provider_id == id) =
        ap (λ (z : CacheKey). z.provider_id == id) ((same_cache_key_iff k' k).0 same) in
      ground (arith, one, same, lookup-bust_provider id k rest)
  | inr other ↦ ground (arith, other, lookup-bust_provider id k rest)
]

lookup-get :
    (k : CacheKey) (e : CacheEntry) (k' : CacheKey) (hash : String) (now : ℕ) (c : Cache)
    → lookup k (get k' hash now c).1 ≡ some e
    → lookup k c ≡ some e
unfolding get
lookup-get k e k' hash now c h = elim (Option-cases (lookup k' c)) [
  | inl f ↦ rw (get, f) at h
  | inr (e', f) ↦ elim (Bool-cases (e'.provider_hash == hash)) [
    | inr g ↦ ground (arith, lookup-bust_provider k'.provider_id k c, rw (get, f, g) at h)
    | inl g ↦ elim (Bool-cases (ltb now e'.expires_at)) [
      | inl l ↦ rw (get, f, g, l) at h
      | inr l ↦ rw (get, f, g, l) at h
    ]
  ]
]

-- Every entry was stored by some call.
lookup-after :
    (calls : List Call) (k : CacheKey) (e : CacheEntry)
    → lookup k (after calls) ≡ some e
    → any (stores k e) calls ≡ true
unfolding after lookup put
lookup-after [] k e h = absurd (ground (arith, h))
lookup-after (got k' hash now ∷ earlier) k e h =
    ground (arith, lookup-after earlier k e (lookup-get k e k' hash now (after earlier) h))
lookup-after (busted id ∷ earlier) k e h =
    let h' : lookup k (after earlier) ≡ some e =
      ground (arith, h, lookup-bust_provider id k (after earlier)) in
    ground (arith, lookup-after earlier k e h')
lookup-after (stored k' hash val ttl now ∷ earlier) k e h = elim (Bool-cases (nat_beq ttl 0)) [
  | inl z ↦ ground (arith, lookup-after earlier k e (rw (put, z) at h))
  | inr z ↦
      let entry : CacheEntry = record {
        value = val;
        provider_hash = hash;
        expires_at = now + ttl;
      } in
      let h' : (if k' == k then some entry else lookup k (after earlier)) ≡ some e =
        sym (lookup-insert k' k entry (after earlier)) ∙ rw (put, z) at h in
      elim (Bool-cases (k' == k)) [
        | inr other ↦ ground (arith, lookup-after earlier k e (rw other at h'))
        | inl same ↦
            let stored_now : stores k entry (stored k' hash val ttl now) ≡ true =
              ground (arith, same, beq_refl hash, beq_refl val) in
            let stored_e : stores k e (stored k' hash val ttl now) ≡ true =
              subst (λ z'. stores k z' (stored k' hash val ttl now) ≡ true)
                (ap (entry_or entry) (rw same at h')) stored_now in
            ground (arith, stored_e)
      ]
]

-- A value that the cache gives, after any calls, was stored under that name of that provider, for the version of
-- the provider that is asked for, until a time that has not come.
pub get-served :
    (calls : List Call) (k : CacheKey) (hash : String) (now : ℕ) (val : String)
    → (get k hash now (after calls)).0 ≡ some val
    → (e : CacheEntry) × (any (stores k e) calls ≡ true)
      × (e.provider_hash ≡ hash)
      × (e.value ≡ val)
      × (now < e.expires_at)
unfolding get
get-served calls k hash now val h = elim (Option-cases (lookup k (after calls))) [
  | inl f ↦ absurd (ground (arith, rw (get, f) at h))
  | inr (e, f) ↦
      let h' = rw (get, f) at h in
      (
        e,
        lookup-after calls k e f,
        (eq_iff e.provider_hash hash).0 (ground (arith, h')),
        ground (arith, h'),
        ground (arith, h'),
      )
]
