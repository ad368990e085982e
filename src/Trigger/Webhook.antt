-- ===== src/Trigger/Webhook.antt =====
-- pkg/trigger/webhook.go, pkg/webhooksign/webhooksign.go: claiming and resolving webhook paths, signatures, and the handler up
-- to the fire. `mac` is HMAC-SHA256 in hexadecimal, over a secret, the timestamp header ("" for none) and the body.
-- Clock readings are nanoseconds.
pub mod Claims
pub mod Routing
pub mod Signing
pub mod Guard
pub mod Admitted
mod Tests
use Prim.Native.Char.{code}
use Prim.Native.String.{count, len, slice, ◌++◌ as str_append}
use dicode_core.Prelude.{
  ℕ, zero, suc, ◌+◌, ◌-◌, ◌*◌, ◌^◌, String, Bool, true, false, not, ◌&&◌, ◌||◌, Option, none, some,
  List, [], ◌∷◌, leb, ltb, nat_beq, if◌then◌else◌, ◌==◌, string_eq,
}
use dicode_core.Prelude.Dict.{lookup, insert}
use dicode_core.Prelude.Text.{before_last_slash, trim_slash}
use dicode_core.Trigger.Replay.{ReplayCache, seen}

abbrev pub reserved_oauth_complete_path : String
reserved_oauth_complete_path = "/hooks/oauth-complete"

abbrev pub oauth_relay_builtin_id : String
oauth_relay_builtin_id = "buildin/auth-relay"

-- `e.webhooks`: which task claims a path.
abbrev pub Webhooks : Type 0
Webhooks = List (String × String)

unfoldable pub register_webhook_path : String → String → Webhooks → Webhooks
register_webhook_path id path webhooks =
    if path == reserved_oauth_complete_path && not (id == oauth_relay_builtin_id)
    then webhooks
    else (let path' = trim_slash path in
        elim (lookup path' webhooks) [
          | some existing ↦ if not (existing == id) then webhooks else insert path' id webhooks
          | none ↦ insert path' id webhooks
        ])

-- The loop of unregisterTriggersKeeping over the webhooks.
unfoldable pub unregister_webhooks : String → String → Webhooks → Webhooks
unregister_webhooks id keep [] = []
unregister_webhooks id keep ((path, task) ∷ rest) =
    let rest' = unregister_webhooks id keep rest in
    if task == id && not (path == keep) then rest' else (path, task) ∷ rest'

-- A path's task, the hook that matched, and what of the path is left for an asset.
pub record Route : Type 0 where
  pub task : String
  pub hook : String
  pub asset : String

-- The loop that walks up one segment at a time; the outer `none`: out of fuel.
unfoldable pub walk_up : Webhooks → String → ℕ → String → Option (Option Route)
walk_up webhooks path zero candidate = none
walk_up webhooks path (suc fuel) candidate = elim (before_last_slash candidate) [
  | none ↦ some none
  | some parent ↦
      let further = walk_up webhooks path fuel parent in
      if parent == "" then some none else elim (lookup parent webhooks) [
        | none ↦ further
        | some id ↦ some (
            some
              (record { task = id; hook = parent; asset = slice path (len parent + 1) (len path) }))
      ]
]

unfoldable pub resolve_webhook_path : Webhooks → String → Option (Option Route)
unfolding walk_up
resolve_webhook_path webhooks path = elim (lookup path webhooks) [
  | some id ↦ some (some (record { task = id; hook = path; asset = "" }))
  | none ↦ walk_up webhooks path (count path + 1) path
]

-- `strconv.ParseInt(raw, 10, 64)`, a sign apart.
pub data Timestamp : Type 0 where
  invalid : Timestamp
  after_epoch before_epoch : ℕ → Timestamp

unfoldable pub digits : ℕ → String → Option ℕ
digits acc String.[] = some acc
digits acc (String.◌∷◌ c s) =
    let rest = digits (acc * 10 + (code c - b'0')) s in
    if leb b'0' (code c) && leb (code c) b'9' then rest else none

unfoldable pub parse_digits : String → Option ℕ
unfolding digits
parse_digits s = if s == "" then none else digits 0 s

abbrev pub in_range : (ℕ → Timestamp) → ℕ → Option ℕ → Timestamp
in_range sign max none = invalid
in_range sign max (some n) = if leb n max then sign n else invalid

unfoldable pub parse_int : String → Timestamp
unfolding parse_digits
parse_int String.[] = invalid
parse_int (String.◌∷◌ c s) =
    if nat_beq (code c) b'-'
    then in_range before_epoch (2 ^ 63) (parse_digits s)
    else if nat_beq (code c) b'+'
    then in_range after_epoch (2 ^ 63 - 1) (parse_digits s)
    else in_range after_epoch (2 ^ 63 - 1) (parse_digits (String.◌∷◌ c s))

abbrev pub nanos_per_second : ℕ
nanos_per_second = 1_000_000_000

-- Five minutes.
abbrev pub webhook_timestamp_tolerance : ℕ
webhook_timestamp_tolerance = 300 * nanos_per_second

-- The age, its sign dropped.
unfoldable pub age : ℕ → Timestamp → ℕ
age now invalid = 0
age now (after_epoch ts) = (now - ts * nanos_per_second) + (ts * nanos_per_second - now)
age now (before_epoch ts) = now + ts * nanos_per_second

pub record Request : Type 0 where
  pub method : String
  pub path : String
  pub timestamp : String
  pub signature : String
  pub body : String

pub data Denied : Type 0 where
  get_with_secret no_timestamp bad_timestamp stale_timestamp no_signature mismatch : Denied

pub data Verified : Type 0 where
  ok : Option String → Verified
  denied : Denied → Verified

abbrev pub signature_value : String → String
signature_value digest = str_append "sha256=" digest

unfoldable pub check_timestamp : Bool → ℕ → String → Option Denied
unfolding age
check_timestamp required now raw =
    if raw == "" then (if required then some no_timestamp else none) else elim (parse_int raw) [
      | invalid ↦ some bad_timestamp
      | after_epoch ts ↦
          if ltb webhook_timestamp_tolerance (age now (after_epoch ts))
          then some stale_timestamp
          else none
      | before_epoch ts ↦
          if ltb webhook_timestamp_tolerance (age now (before_epoch ts))
          then some stale_timestamp
          else none
    ]

module _ (mac : String → String → String → String) where
  -- The digest that is returned is `none` where the webhook has no secret.
  unfoldable pub verify_webhook_signature_secret : String → Bool → ℕ → Request → Verified
  unfolding check_timestamp
  verify_webhook_signature_secret secret required now r =
      let digest = mac secret r.timestamp r.body in
      if secret == ""
      then ok none
      else if r.method == "GET"
      then denied get_with_secret
      else elim (check_timestamp required now r.timestamp) [
        | some why ↦ denied why
        | none ↦
            if r.signature == ""
            then denied no_signature
            else if not (r.signature == signature_value digest)
            then denied mismatch
            else ok (some digest)
      ]

-- Whether the request is a repeated one, and the cache after it.
unfoldable pub check_webhook_replay :
    String → Bool → ℕ → Option String → ReplayCache → Bool × ReplayCache
check_webhook_replay secret replay_protection now digest cache =
    if secret == ""
    then (false, cache)
    else if not replay_protection
    then (false, cache)
    else elim digest [ none ↦ seen now "" cache | some d ↦ seen now d cache ]
