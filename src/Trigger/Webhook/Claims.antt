-- ===== src/Trigger/Webhook/Claims.antt =====
-- pkg/trigger/webhook.go: which task holds a webhook path.
use Prim.Native.String.{◌++◌ as str_append}
use text.Mathlib.TextEquality.{eq_iff}
use dicode_core.Prelude.{
  String, ◌≡◌, not, ◌&&◌, none, some, ◌==◌, string_eq, arith, Bool-cases, Option-cases, inl, inr,
}
use dicode_core.Prelude.Dict.{lookup, lookup-insert, lookup-insert_self}
use dicode_core.Prelude.Text.{trim_slash}
use dicode_core.Trigger.Webhook.{
  Webhooks, reserved_oauth_complete_path, oauth_relay_builtin_id, register_webhook_path,
}

-- A path that some task holds stays that task's, whichever paths other tasks register.
pub register_webhook_path-held :
    (id path held owner : String) (webhooks : Webhooks)
    → lookup held webhooks ≡ some owner
    → lookup held (register_webhook_path id path webhooks) ≡ some owner
unfolding register_webhook_path
register_webhook_path-held id path held owner webhooks h =
    let path' = trim_slash path in
    elim (Bool-cases (path == reserved_oauth_complete_path && not (id == oauth_relay_builtin_id))) [
      | inl r ↦ rw r h
      | inr r ↦ rw r (elim (Option-cases (lookup path' webhooks)) [
        | inl e ↦ rw e (ground (arith, lookup-insert path' held id webhooks, eq_iff path' held))
        | inr (existing, e) ↦ rw e (elim (Bool-cases (existing == id)) [
          | inr n ↦ rw n h
          | inl y ↦ rw y (
              ground (
                arith,
                lookup-insert path' held id webhooks,
                eq_iff path' held,
                eq_iff existing id,
              ))
        ])
      ])
    ]

-- Any task, not only the relay's, that registers the reserved path with a slash after it, holds the reserved path
-- from then on, if no task holds it yet: the test for the reserved path looks at the path before the slash is taken off.
pub register_webhook_path-reserved :
    (id : String) (webhooks : Webhooks)
    → lookup reserved_oauth_complete_path webhooks ≡ none
    → lookup reserved_oauth_complete_path
        (register_webhook_path id (str_append reserved_oauth_complete_path "/") webhooks)
      ≡ some id
unfolding register_webhook_path trim_slash
register_webhook_path-reserved id webhooks free =
    rw (register_webhook_path, free) (lookup-insert_self reserved_oauth_complete_path id webhooks)
