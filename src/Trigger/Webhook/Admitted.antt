-- ===== src/Trigger/Webhook/Admitted.antt =====
-- pkg/webui/auth.go with pkg/trigger/webhook.go: the requests that fire a task or see its pages.
use dicode_core.Prelude.{
  ℕ, String, ◌≡◌, ◌≢◌, refl, Bool, true, false, Option, some, List, ◌==◌, string_eq, arith,
  Bool-cases, Option-cases, inl, inr, ◌⊎◌,
}
use dicode_core.Prelude.Dict.{lookup}
use dicode_core.Trigger.Replay.{ReplayCache}
use dicode_core.Trigger.Webhook.{Webhooks, Route, Request, resolve_webhook_path}
use dicode_core.Trigger.Webhook.Guard.{
  AuthMode, auth_none, auth_session, auth_any, Hook, webhook_auth_guard, Response, not_found,
  unauthorized, served_ui, served_asset, webhook_handler, handle_webhook,
}
use dicode_core.Trigger.Webhook.Signing.{Signed}

-- A valid session on a request that did not come through the relay.
abbrev pub DirectSession : Bool → Bool → Type 0
DirectSession relayed has_session = (relayed ≡ false) × (has_session ≡ true)

module _ (mac : String → String → String → String) (now : ℕ) where
  -- What a webhook asks for before its task is fired.
  abbrev pub Entitled : Hook → Request → Bool → Bool → Type 0
  Entitled hook r relayed has_session =
      let signature = Signed mac hook.secret hook.require_timestamp now r in
      ((hook.mode ≡ auth_any) × DirectSession relayed has_session)
      ⊎ ((hook.mode ≡ auth_any) × signature)
      ⊎ ((hook.mode ≡ auth_session)
          × DirectSession relayed has_session
          × ((hook.secret ≡ "") ⊎ signature))
      ⊎ ((hook.mode ≡ auth_none) × ((hook.secret ≡ "") ⊎ signature))

  -- What a request that the guard lets through has shown.
  abbrev Shown : AuthMode → Bool → Bool → Bool → Bool → Bool → Bool → Type 0
  Shown mode session_authed no_secret no_asset is_get relayed has_session =
      ((mode ≡ auth_any) × (session_authed ≡ true) × DirectSession relayed has_session)
      ⊎ ((mode ≡ auth_any)
          × (session_authed ≡ false)
          × (no_secret ≡ false)
          × (no_asset ≡ true)
          × (is_get ≡ false))
      ⊎ ((mode ≡ auth_session) × (session_authed ≡ false) × DirectSession relayed has_session)
      ⊎ ((mode ≡ auth_none) × (session_authed ≡ false))

  guard_shows :
      (mode : AuthMode) (hook : Hook) (route : Route) (r : Request) (relayed has_session b : Bool)
      → hook.mode ≡ mode
      → webhook_auth_guard hook route r relayed has_session ≡ some b
      → Shown mode b (hook.secret == "") (route.asset == "") (r.method == "GET") relayed has_session
  unfolding webhook_auth_guard
  guard_shows auth_none hook route r relayed has_session b e h =
      let h' = rw (webhook_auth_guard, e) at h in inr (inr (inr (refl, cc)))
  guard_shows auth_session hook route r relayed has_session b e h =
      let h' = rw (webhook_auth_guard, e) at h in
      inr (inr (inl (refl, ground arith, (ground arith, ground arith))))
  guard_shows auth_any hook route r relayed has_session b e h =
      let h' = rw (webhook_auth_guard, e) at h in
      elim (Bool-cases b) [
        | inl y ↦ inl (refl, y, (ground arith, ground arith))
        | inr n ↦ inr (inl (refl, n, ground arith, ground arith, ground arith))
      ]

  -- A request for the hook itself that is not GET is not answered with a page.
  no_page :
      (hook : Hook) (route : Route) (r : Request) (s : Bool) (cache cache' : ReplayCache)
      (o : Response)
      → (route.asset == "") ≡ true
      → (r.method == "GET") ≡ false
      → webhook_handler mac now hook route r s cache ≡ (o, cache')
      → (o ≡ served_ui) ⊎ (o ≡ served_asset)
      → ⊥
  unfolding webhook_handler
  no_page hook route r s cache cache' o asset get h page = ground arith

  module _ (webhooks : Webhooks) (hooks : List (String × Hook)) (r : Request)
      (relayed has_session : Bool) (cache : ReplayCache) where
    abbrev answer : Option (Response × ReplayCache)
    answer = handle_webhook mac now webhooks hooks r relayed has_session cache

    -- The route and the hook of a request that gets past the guard, and what the handler answers.
    passed :
        (o : Response) (cache' : ReplayCache)
        → answer ≡ some (o, cache')
        → o ≢ not_found
        → o ≢ unauthorized
        → (route : Route) × (hook : Hook) × (b : Bool) × (resolve_webhook_path webhooks r.path
            ≡ some (some route))
          × (lookup route.task hooks ≡ some hook)
          × (webhook_auth_guard hook route r relayed has_session ≡ some b)
          × (webhook_handler mac now hook route r b cache ≡ (o, cache'))
    unfolding handle_webhook
    passed o cache' h found allowed = elim (Option-cases (resolve_webhook_path webhooks r.path)) [
      | inl e ↦ absurd (cc (rw (handle_webhook, e) at h))
      | inr (unrouted, e) ↦ elim (Option-cases unrouted) [
        | inl n ↦ absurd (found (cc (rw (handle_webhook, e, n) at h)))
        | inr (route, y) ↦ elim (Option-cases (lookup route.task hooks)) [
          | inl n ↦ absurd (found (cc (rw (handle_webhook, e, y, n) at h)))
          | inr (hook, k) ↦
              elim (Option-cases (webhook_auth_guard hook route r relayed has_session)) [
                | inl n ↦ absurd (allowed (cc (rw (handle_webhook, e, y, k, n) at h)))
                | inr (b, g) ↦ (route, hook, b, cc, k, g, cc (rw (handle_webhook, e, y, k, g) at h))
              ]
        ]
      ]
    ]

    -- The pages and assets of a webhook that is not open are served only to a request that came directly with a session.
    pub handle_webhook_pages :
        (o : Response) (cache' : ReplayCache)
        → answer ≡ some (o, cache')
        → (o ≡ served_ui) ⊎ (o ≡ served_asset)
        → (route : Route) × (hook : Hook) × (resolve_webhook_path webhooks r.path
            ≡ some (some route))
          × (lookup route.task hooks ≡ some hook)
          × ((hook.mode ≡ auth_none) ⊎ DirectSession relayed has_session)
    handle_webhook_pages o cache' h page =
        let (route, hook, b, e, k, g, f) =
          passed o cache' h (λ p. elim page [ inl q ↦ cc | inr q ↦ cc ])
            (λ p. elim page [ inl q ↦ cc | inr q ↦ cc ]) in
        (
          route,
          hook,
          e,
          k,
          elim (guard_shows hook.mode hook route r relayed has_session b refl g) [
            | inl (mode, y, direct) ↦ inr direct
            | inr rest ↦ elim rest [
              | inl (mode, n, secret, asset, get) ↦
                  absurd (no_page hook route r b cache cache' o asset get f page)
              | inr rest' ↦ elim rest' [
                | inl (mode, n, direct) ↦ inr direct
                | inr (mode, n) ↦ inl mode
              ]
            ]
          ],
        )
