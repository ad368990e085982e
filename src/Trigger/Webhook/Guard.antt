-- ===== src/Trigger/Webhook/Guard.antt =====
-- pkg/webui/auth.go (webhookAuthGuard) and pkg/trigger/webhook.go (WebhookHandler): a webhook request from the
-- gateway up to the fire. `has_session` says whether the request carries a valid session.
use Prim.Native.Char.{code}
use dicode_core.Prelude.{
  ℕ, String, Bool, true, false, not, ◌&&◌, ◌||◌, Option, none, some, List, nat_beq, if◌then◌else◌,
  ◌==◌, string_eq,
}
use dicode_core.Prelude.Dict.{lookup}
use dicode_core.Trigger.Replay.{ReplayCache}
use dicode_core.Trigger.Webhook.{
  Webhooks, Route, Request, Denied, ok, denied, resolve_webhook_path,
  verify_webhook_signature_secret, check_webhook_replay,
}

pub data AuthMode : Type 0 where
  auth_none auth_session auth_any : AuthMode

-- What the registry knows of a task or a pipeline with a webhook, and whether its directory has an index.html.
pub record Hook : Type 0 where
  pub mode : AuthMode
  pub secret : String
  pub replay_protection : Bool
  pub require_timestamp : Bool
  pub pipeline : Bool
  pub has_index : Bool

pub data AuthOutcome : Type 0 where
  webhook_pass webhook_pass_session webhook_hmac webhook_deny : AuthOutcome

abbrev pub is_any : AuthMode → Bool
is_any auth_any = true
is_any other = false

abbrev pub enabled : AuthMode → Bool
enabled auth_none = false
enabled other = true

unfoldable pub resolve_webhook_auth : AuthMode → Bool → Bool → String → Bool → Bool → AuthOutcome
resolve_webhook_auth mode has_secret is_asset method relayed has_session =
    let can_hmac = is_any mode && has_secret && not (method == "GET") && not is_asset in
    if not (enabled mode)
    then webhook_pass
    else if relayed
    then (if can_hmac then webhook_hmac else webhook_deny)
    else if has_session
    then (if is_any mode then webhook_pass_session else webhook_pass)
    else if can_hmac
    then webhook_hmac
    else webhook_deny

-- Whether the request goes on to the handler, and then whether it is marked as authenticated by its session.
unfoldable pub webhook_auth_guard : Hook → Route → Request → Bool → Bool → Option Bool
unfolding resolve_webhook_auth
webhook_auth_guard hook route r relayed has_session =
    if not (enabled hook.mode)
    then some false
    else elim (resolve_webhook_auth hook.mode (not (hook.secret == "")) (not (route.asset == ""))
        r.method relayed (if relayed then false else has_session)) [
          | webhook_pass_session ↦ some true
          | webhook_hmac ↦ some false
          | webhook_pass ↦ some false
          | webhook_deny ↦ none
        ]

pub data Response : Type 0 where
  not_found unauthorized forbidden_path served_ui served_asset replayed : Response
  bad_signature : Denied → Response
  fires : String → Response

-- `strings.Contains(s, "..")`
unfoldable pub has_dots : Bool → String → Bool
has_dots after_dot String.[] = false
has_dots after_dot (String.◌∷◌ c s) =
    let dot = nat_beq (code c) b'.' in if after_dot && dot then true else has_dots dot s

-- `filepath.Ext(s) != ""`: a dot in the last segment.
unfoldable pub has_ext : Bool → String → Bool
has_ext dotted String.[] = dotted
has_ext dotted (String.◌∷◌ c s) =
    has_ext (if nat_beq (code c) b'/' then false else dotted || nat_beq (code c) b'.') s

module _ (mac : String → String → String → String) (now : ℕ) where
  -- The checks before the fire, of a task and of a pipeline alike.
  unfoldable pub fire_webhook :
      Hook → String → Request → Bool → ReplayCache → Response × ReplayCache
  fire_webhook hook id r session_authed cache =
      if session_authed
      then (fires id, cache)
      else elim (verify_webhook_signature_secret mac hook.secret hook.require_timestamp now r) [
        | denied why ↦ (bad_signature why, cache)
        | ok digest ↦
            let (repeated, cache') =
              check_webhook_replay hook.secret hook.replay_protection now digest cache in
            if repeated then (replayed, cache') else (fires id, cache')
      ]

  unfoldable pub webhook_handler :
      Hook → Route → Request → Bool → ReplayCache → Response × ReplayCache
  unfolding fire_webhook has_dots has_ext
  webhook_handler hook route r session_authed cache =
      let is_get = r.method == "GET" in
      if hook.pipeline
      then (if not (route.asset == "")
          then (not_found, cache)
          else fire_webhook hook route.task r session_authed cache)
      else if not (route.asset == "")
      then (if has_dots false route.asset
          then (forbidden_path, cache)
          else if is_get && not (has_ext false route.asset) && hook.has_index
          then (served_ui, cache)
          else (served_asset, cache))
      else if is_get && hook.has_index
      then (served_ui, cache)
      else fire_webhook hook route.task r session_authed cache

  -- The guard before the handler, both on the route that resolveWebhookPath gives; `none`: out of fuel there.
  unfoldable pub handle_webhook :
      Webhooks
      → List (String × Hook)
      → Request
      → Bool
      → Bool
      → ReplayCache
      → Option (Response × ReplayCache)
  unfolding webhook_auth_guard webhook_handler resolve_webhook_path
  handle_webhook webhooks hooks r relayed has_session cache =
      elim (resolve_webhook_path webhooks r.path) [
        | none ↦ none
        | some none ↦ some (not_found, cache)
        | some (some route) ↦ elim (lookup route.task hooks) [
          | none ↦ some (not_found, cache)
          | some hook ↦ elim (webhook_auth_guard hook route r relayed has_session) [
            | none ↦ some (unauthorized, cache)
            | some session_authed ↦ some (webhook_handler hook route r session_authed cache)
          ]
        ]
      ]
