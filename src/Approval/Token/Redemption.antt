-- ===== src/Approval/Token/Redemption.antt =====
-- pkg/approval/token.go: a token is good once, for what it was minted for, until it expires.
use Prim.Native.String
use text.Mathlib.TextEquality.{eq_iff}
use text.Mathlib.TextPositions.{starts_with-append}
use dicode_core.Prelude.{
  ℕ, ◌+◌, String, ◌≡◌, ◌≢◌, some, arith, ltb, if◌then◌else◌, string_eq, Option-cases, inl, inr,
}
use dicode_core.Prelude.Dict.{lookup, lookup-insert_self, lookup-delete, lookup-delete_self}
use dicode_core.Approval.Token.{
  TokenStore, token_invalid, token_expired, ok, err, token_ttl, token_prefix, delete_expired, mint,
  peek, redeem, new_row,
}

module _ (hash_token : String → String) where
  -- `Redeem` answers as `Peek` does, and afterwards the token is invalid, also where it had expired.
  pub redeem_once :
      (now later : ℕ) (token : String) (rows : TokenStore)
      → let (r, rows') = redeem hash_token now token rows in
        (r ≡ peek hash_token now token rows)
        × (redeem hash_token later token rows' ≡ (err token_invalid, rows'))
  unfolding redeem peek
  redeem_once now later token rows =
      (ground arith, ground (arith, lookup-delete_self (hash_token token) rows))

  -- Redeeming one token leaves every other token as it was, where the hashes differ.
  pub peek-redeem_ne :
      (now later : ℕ) (token other : String) (rows : TokenStore)
      → hash_token token ≢ hash_token other
      → peek hash_token later other (redeem hash_token now token rows).1
        ≡ peek hash_token later other rows
  unfolding redeem peek
  peek-redeem_ne now later token other rows ne = ground (
    arith,
    eq_iff (hash_token token) (hash_token other),
    lookup-delete (hash_token token) (hash_token other) rows,
  )

  mint-ok :
      (now : ℕ) (raw task_id hash token : String) (rows : TokenStore)
      → (mint hash_token now raw task_id hash rows).0 ≡ ok token
      → (token ≡ String.◌++◌ token_prefix raw)
        × (lookup (hash_token token) (mint hash_token now raw task_id hash rows).1
            ≡ some (new_row now task_id hash))
  unfolding mint
  mint-ok now raw task_id hash token rows m =
      let key = hash_token (String.◌++◌ token_prefix raw) in
      let kept = delete_expired now rows in
      elim (Option-cases (lookup key kept)) [
        | inl e ↦ ground (arith, e, lookup-insert_self key (new_row now task_id hash) kept)
        | inr (row, e) ↦ absurd (ground (arith, e))
      ]

  -- A minted token redeems to the task and hash that it was minted for, up to its expiry and no
  -- later; the store reveals nothing of it but its hash.
  pub redeem-mint :
      (now later : ℕ) (raw task_id hash token : String) (rows : TokenStore)
      → (mint hash_token now raw task_id hash rows).0 ≡ ok token
      → (redeem hash_token later token (mint hash_token now raw task_id hash rows).1).0 ≡ (
          if ltb (now + token_ttl) later
          then err token_expired
          else ok (record { task_id = task_id; hash = hash }))
  unfolding redeem
  redeem-mint now later raw task_id hash token rows m =
      let (shape, stored) = mint-ok now raw task_id hash token rows m in
      ground (arith, shape, stored, starts_with-append token_prefix raw)
