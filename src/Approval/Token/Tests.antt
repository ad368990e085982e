-- ===== src/Approval/Token/Tests.antt =====
-- Tests of pkg/approval/token.go: the theorems at concrete stores.
use dicode_core.Prelude.{String, ◌≡◌, refl, []}
use dicode_core.Prelude.Dict.{lookup}
use dicode_core.Approval.Token.{
  TokenStore, ok, err, token_invalid, mint, peek, redeem, delete_expired,
}
use dicode_core.Approval.Token.Redemption.{redeem_once}

-- The identity separates all tokens, as SHA-256 does in practice.
abbrev no_hash : String → String
no_hash s = s

abbrev minted : TokenStore
minted = (mint no_hash 100 "abc" "src/a" "h1" []).1

redeem_once_example :
    let (r, rows') = redeem no_hash 200 "dcap_abc" minted in
    (r ≡ peek no_hash 200 "dcap_abc" minted)
    × (redeem no_hash 201 "dcap_abc" rows' ≡ (err token_invalid, rows'))
redeem_once_example = redeem_once no_hash 200 201 "dcap_abc" minted

mints : (mint no_hash 100 "abc" "src/a" "h1" []).0 ≡ ok "dcap_abc"
unfolding mint delete_expired lookup
mints = refl
