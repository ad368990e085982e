-- ===== src/Runtime/EnvCache.antt =====
-- pkg/runtime/envresolve/cache.go: the values of provider tasks that are kept for a while. Clock readings and
-- lifetimes are nanoseconds; a lifetime that is not positive is 0.
pub mod Served
mod Tests
use text.Mathlib.TextEquality.{eq_iff}
use dicode_core.Prelude.{
  ℕ, ◌+◌, String, ◌≡◌, ◌↔◌, Bool, true, false, not, ◌&&◌, Option, none, some, List, [], ◌∷◌, ltb,
  nat_beq, Keyed, arith, if◌then◌else◌, ◌==◌, string_eq,
}
use dicode_core.Prelude.Dict.{lookup, insert}

pub record CacheKey : Type 0 where
  pub provider_id : String
  pub secret_name : String

abbrev pub same_cache_key : CacheKey → CacheKey → Bool
same_cache_key a b = a.provider_id == b.provider_id && a.secret_name == b.secret_name

pub same_cache_key_iff : (a b : CacheKey) → (same_cache_key a b ≡ true) ↔ (a ≡ b)
same_cache_key_iff a b =
    ground (arith, eq_iff a.provider_id b.provider_id, eq_iff a.secret_name b.secret_name)

instance abbrev pub cache_key_eq : Keyed CacheKey
cache_key_eq = record { eqb = same_cache_key; eqb_iff = same_cache_key_iff }

pub record CacheEntry : Type 0 where
  pub value : String
  pub provider_hash : String
  pub expires_at : ℕ

abbrev pub Cache : Type 0
Cache = List (CacheKey × CacheEntry)

unfoldable pub bust_provider : String → Cache → Cache
bust_provider id [] = []
bust_provider id ((k, e) ∷ rest) =
    let rest' = bust_provider id rest in if k.provider_id == id then rest' else (k, e) ∷ rest'

unfoldable pub get : CacheKey → String → ℕ → Cache → Option String × Cache
unfolding bust_provider
get k hash now c = elim (lookup k c) [
  | none ↦ (none, c)
  | some e ↦
      if not (e.provider_hash == hash)
      then (none, bust_provider k.provider_id c)
      else if not (ltb now e.expires_at)
      then (none, c)
      else (some e.value, c)
]

unfoldable pub put : CacheKey → String → String → ℕ → ℕ → Cache → Cache
put k hash val ttl now c =
    if nat_beq ttl 0
    then c
    else insert k (record { value = val; provider_hash = hash; expires_at = now + ttl }) c
