-- ===== src/Approval/Token.antt =====
-- pkg/approval/token.go: single-use approve links. The table approval_tokens is a dictionary on its
-- primary key, the SHA-256 of a token; `hash_token` is that function. Times are Unix seconds.
pub mod Redemption
mod Tests
use Prim.Native.String
use text.Mathlib.Text.{starts_with}
use dicode_core.Prelude.{
  ℕ, ◌+◌, ◌*◌, String, Bool, true, false, ◌||◌, Option, none, some, List, [], ◌∷◌, ltb, ◌==◌,
  if◌then◌else◌, string_eq,
}
use dicode_core.Prelude.Dict.{lookup, insert, delete}

pub record TokenInfo : Type 0 where
  pub task_id : String
  pub hash : String

pub record Row : Type 0 where
  pub info : TokenInfo
  pub created_at : ℕ
  pub expires_at : ℕ

abbrev pub TokenStore : Type 0
TokenStore = List (String × Row)

pub data TokenError : Type 0 where
  token_invalid token_expired missing_field store_failed : TokenError

pub data Result (A : Type 0) : Type 0 where
  ok : A → Result A
  err : TokenError → Result A

abbrev pub token_ttl : ℕ
token_ttl = 24 * 3600

abbrev pub token_prefix : String
token_prefix = "dcap_"

-- `DELETE FROM approval_tokens WHERE expires_at < now`
unfoldable pub delete_expired : ℕ → TokenStore → TokenStore
delete_expired now [] = []
delete_expired now ((k, row) ∷ rows) =
    let rest = delete_expired now rows in if ltb row.expires_at now then rest else (k, row) ∷ rest

abbrev pub new_row : ℕ → String → String → Row
new_row now task_id hash = record {
  info = record { task_id = task_id; hash = hash };
  created_at = now;
  expires_at = now + token_ttl;
}

abbrev pub unless_expired : ℕ → Row → Result TokenInfo
unless_expired now row = if ltb row.expires_at now then err token_expired else ok row.info

module _ (hash_token : String → String) where
  -- `raw` is the base64 text of 32 random bytes. The INSERT fails on a key that is taken.
  unfoldable pub mint : ℕ → String → String → String → TokenStore → Result String × TokenStore
  mint now raw task_id hash rows =
      if task_id == "" || hash == ""
      then (err missing_field, rows)
      else (let token = String.◌++◌ token_prefix raw in
          let kept = delete_expired now rows in
          elim (lookup (hash_token token) kept) [
            | some row ↦ (err store_failed, kept)
            | none ↦ (ok token, insert (hash_token token) (new_row now task_id hash) kept)
          ])

  unfoldable pub lookup_token : String → TokenStore → Result Row
  lookup_token token rows =
      if starts_with token token_prefix
      then elim (lookup (hash_token token) rows) [ none ↦ err token_invalid | some row ↦ ok row ]
      else err token_invalid

  unfoldable pub peek : ℕ → String → TokenStore → Result TokenInfo
  unfolding lookup_token
  peek now token rows = elim (lookup_token token rows) [
    | err e ↦ err e
    | ok row ↦ unless_expired now row
  ]

  -- The row goes before the result is looked at.
  unfoldable pub redeem : ℕ → String → TokenStore → Result TokenInfo × TokenStore
  unfolding lookup_token
  redeem now token rows = elim (lookup_token token rows) [
    | err e ↦ (err e, rows)
    | ok row ↦ (unless_expired now row, delete (hash_token token) rows)
  ]
