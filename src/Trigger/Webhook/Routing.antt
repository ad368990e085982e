-- ===== src/Trigger/Webhook/Routing.antt =====
-- pkg/trigger/webhook.go: the task that a request's path is routed to (resolveWebhookPath).
use Prim.Native.String.{count, ◌++◌ as str_append}
use dicode_core.Prelude.{String, ◌≡◌, ◌≢◌, Option, none, some, string_eq, ◌≤◌, ◌⊎◌}
use dicode_core.Prelude.Dict.{lookup}
use dicode_core.Trigger.Webhook.{Webhooks, Route}

-- What a route says of a path: its hook is claimed by its task, and the path is the hook, or goes on below it.
abbrev pub Explains : Webhooks → String → Option Route → Type 0
Explains webhooks path none = Unit
Explains webhooks path (some r) =
    (lookup r.hook webhooks ≡ some r.task)
    × (((path ≡ r.hook) × (r.asset ≡ "")) ⊎ (path ≡ str_append r.hook (str_append "/" r.asset)))

-- Whether a claimed hook above a path is found, or one that is as long or longer.
abbrev pub Covers : Option Route → String → Type 0
Covers none hook = ⊥
Covers (some r) hook = count hook ≤ count r.hook

module _ (webhooks : Webhooks) (path : String) where
  abbrev pub Deepest : String → Option Route → Type 0
  Deepest candidate r =
      (hook rest id : String)
      → hook ≢ ""
      → candidate ≡ str_append hook (str_append "/" rest)
      → lookup hook webhooks ≡ some id
      → Covers r hook
