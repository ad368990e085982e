-- ===== src/Trigger/Webhook/Tests.antt =====
-- Tests of pkg/trigger/webhook.go: the theorems at concrete paths and requests.
use Prim.Native.String.{◌++◌ as str_append}
use dicode_core.Prelude.{
  String, ◌≡◌, refl, ◌⊎◌, inl, true, false, none, some, List, [], ◌∷◌, string_eq,
}
use dicode_core.Prelude.Dict.{lookup}
use dicode_core.Prelude.Text.{before_last_slash}
use dicode_core.Trigger.Replay.{ReplayCache, new_replay_cache}
use dicode_core.Trigger.Webhook.{
  Webhooks, Route, Request, ok, reserved_oauth_complete_path, register_webhook_path,
  unregister_webhooks, resolve_webhook_path, parse_int, after_epoch,
  verify_webhook_signature_secret,
}
use dicode_core.Trigger.Webhook.Claims.{register_webhook_path-reserved}
use dicode_core.Trigger.Webhook.Guard.{auth_any, auth_none, Hook, served_ui, handle_webhook}
use dicode_core.Trigger.Webhook.Admitted.{DirectSession, handle_webhook_pages}

abbrev two_hooks : Webhooks
two_hooks = ("/hooks/ai", "ai") ∷ ("/hooks/ai/openai", "preset") ∷ []

deepest_wins :
    resolve_webhook_path two_hooks "/hooks/ai/openai/js/chat.js"
    ≡ some (some (record { task = "preset"; hook = "/hooks/ai/openai"; asset = "js/chat.js" }))
unfolding resolve_webhook_path lookup before_last_slash
deepest_wins = refl

signed_number : parse_int "+17" ≡ after_epoch 17
unfolding parse_int
signed_number = refl

reload_gap : unregister_webhooks "ai" "/hooks/ai/" two_hooks ≡ ("/hooks/ai/openai", "preset") ∷ []
unfolding unregister_webhooks
reload_gap = refl

holds : lookup "/hooks/ai" two_hooks ≡ some "ai"
unfolding lookup
holds = refl

reserved_free : lookup reserved_oauth_complete_path two_hooks ≡ none
unfolding lookup
reserved_free = refl

register_webhook_path-reserved_example :
    lookup reserved_oauth_complete_path
      (register_webhook_path "ai" (str_append reserved_oauth_complete_path "/") two_hooks)
    ≡ some "ai"
register_webhook_path-reserved_example = register_webhook_path-reserved "ai" two_hooks reserved_free

abbrev sample_mac : String → String → String → String
sample_mac secret timestamp body = str_append secret (str_append timestamp body)

abbrev signed_request : Request
signed_request = record {
  method = "POST";
  path = "/hooks/ai";
  timestamp = "100";
  signature = "sha256=s100{}";
  body = "{}";
}

accepted :
    verify_webhook_signature_secret sample_mac "s" true 150_000_000_000 signed_request
    ≡ ok (some "s100{}")
unfolding verify_webhook_signature_secret parse_int
accepted = refl

abbrev ai_hook : Hook
ai_hook = record {
  mode = auth_any;
  secret = "s";
  replay_protection = true;
  require_timestamp = true;
  pipeline = false;
  has_index = true;
}

abbrev cache : ReplayCache
cache = new_replay_cache 600

abbrev hooks : List (String × Hook)
hooks = ("ai", ai_hook) ∷ []

abbrev cache_after : ReplayCache
cache_after = record cache {
  entries = ("s100{}", 150_000_000_000) ∷ [];
  order = ("s100{}", 150_000_000_000) ∷ [];
}

abbrev page_request : Request
page_request = record {
  method = "GET";
  path = "/hooks/ai";
  timestamp = "";
  signature = "";
  body = "";
}

page_served :
    handle_webhook sample_mac 5 two_hooks hooks page_request false true cache
    ≡ some (served_ui, cache)
unfolding handle_webhook lookup
page_served = refl

handle_webhook_pages_example :
    (route : Route) × (hook : Hook) × (resolve_webhook_path two_hooks "/hooks/ai"
      ≡ some (some route))
    × (lookup route.task hooks ≡ some hook)
    × ((hook.mode ≡ auth_none) ⊎ DirectSession false true)
handle_webhook_pages_example =
    handle_webhook_pages sample_mac 5 two_hooks hooks page_request false true cache served_ui cache
      page_served (inl refl)
