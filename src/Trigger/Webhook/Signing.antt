-- ===== src/Trigger/Webhook/Signing.antt =====
-- pkg/trigger/webhook.go: when a signature is accepted.
use text.Mathlib.TextEquality.{eq_iff}
use dicode_core.Prelude.{ℕ, ◌≤◌, String, ◌≡◌, ◌≢◌, Bool, false, none, string_eq, arith, ◌⊎◌}
use dicode_core.Trigger.Webhook.{
  invalid, age, parse_int, webhook_timestamp_tolerance, Request, ok, signature_value,
  verify_webhook_signature_secret,
}

-- A timestamp header that is absent where it may be, or a number within five minutes of the clock.
abbrev pub Timely : Bool → ℕ → String → Type 0
Timely required now raw =
    ((raw ≡ "") × (required ≡ false))
    ⊎ ((raw ≢ "")
        × (parse_int raw ≢ invalid)
        × (age now (parse_int raw) ≤ webhook_timestamp_tolerance))

module _ (mac : String → String → String → String) where
  -- A request that was signed with the webhook's secret.
  pub record Signed (secret : String) (required : Bool) (now : ℕ) (r : Request) : Type 0 where
    pub has_secret : secret ≢ ""
    pub no_get : r.method ≢ "GET"
    pub timely : Timely required now r.timestamp
    pub signed : r.signature ≡ signature_value (mac secret r.timestamp r.body)

  pub verify_webhook_signature_secret-open :
      (secret : String) (required : Bool) (now : ℕ) (r : Request)
      → verify_webhook_signature_secret mac secret required now r ≡ ok none
      → secret ≡ ""
  unfolding verify_webhook_signature_secret
  verify_webhook_signature_secret-open secret required now r h = ground (arith, eq_iff secret "")
