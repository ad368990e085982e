-- ===== src/Runtime/EnvCache/Tests.antt =====
-- Tests of pkg/runtime/envresolve/cache.go: a value within its lifetime, and after its provider changed.
use dicode_core.Prelude.{◌<◌, ◌≡◌, refl, true, none, some, List, [], ◌∷◌, any}
use dicode_core.Prelude.Dict.{lookup, insert}
use dicode_core.Runtime.EnvCache.{CacheKey, CacheEntry, bust_provider, get, put}
use dicode_core.Runtime.EnvCache.Served.{Call, got, stored, after, stores, get-served}

abbrev api_key : CacheKey
api_key = record { provider_id = "vault"; secret_name = "API_KEY" }

abbrev calls : List Call
calls = got api_key "v1" 120 ∷ stored api_key "v1" "secret" 100 50 ∷ []

served : (get api_key "v1" 149 (after calls)).0 ≡ some "secret"
unfolding get after put lookup insert
served = refl

version_changed : get api_key "v2" 149 (after calls) ≡ (none, [])
unfolding get after put lookup insert bust_provider
version_changed = refl

get-served_example :
    (e : CacheEntry) × (any (stores api_key e) calls ≡ true)
    × (e.provider_hash ≡ "v1")
    × (e.value ≡ "secret")
    × (149 < e.expires_at)
get-served_example = get-served calls api_key "v1" 149 "secret" served
