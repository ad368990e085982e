-- ===== src/Taskset/Override/Triggers.antt =====
-- pkg/taskset/override.go, applyTriggerPatch: a task has one trigger type, the last one patched.
use dicode_core.Prelude.{
  ℕ, ◌+◌, ◌≤◌, String, ◌≡◌, refl, Bool, false, Option, none, some, ◌==◌, ◌∙◌, sym, subst,
  if◌then◌else◌, string_eq, arith,
}
use dicode_core.Taskset.Override.{
  TriggerConfig, TriggerPatch, patch_cron, patch_webhook, patch_auth, patch_manual, patch_chain,
  patch_daemon, patch_restart, apply_trigger_patch,
}

-- A trigger type with its setting.
pub data Kind (C : Type 0) : Type 0 where
  cron webhook : String → Kind C
  manual daemon : Bool → Kind C
  chain : C → Kind C

-- The settings of the five types in a configuration.
pub record Kinds (C : Type 0) : Type 0 where
  pub cron : String
  pub webhook : String
  pub manual : Bool
  pub chain : Option C
  pub daemon : Bool

abbrev pub string_set : String → ℕ
string_set s = if s == "" then 0 else 1

abbrev pub bool_set : Bool → ℕ
bool_set b = if b then 1 else 0

module _ {C : Type 0} where
  abbrev pub kinds_of : TriggerConfig C → Kinds C
  kinds_of t = record {
    cron = t.cron;
    webhook = t.webhook;
    manual = t.manual;
    chain = t.chain;
    daemon = t.daemon;
  }

  abbrev empty_kinds : Kinds C
  empty_kinds = record { cron = ""; webhook = ""; manual = false; chain = none; daemon = false }

  -- One type set, the other four cleared.
  abbrev pub alone : Kind C → Kinds C
  alone (cron c) = record empty_kinds { cron = c }
  alone (webhook w) = record empty_kinds { webhook = w }
  alone (manual b) = record empty_kinds { manual = b }
  alone (chain c) = record empty_kinds { chain = some c }
  alone (daemon b) = record empty_kinds { daemon = b }

  -- The type that a patch sets: of several, the last in the order cron, webhook, manual, chain,
  -- daemon.
  abbrev last_of :
      Option Bool → Option C → Option Bool → Option String → Option String → Option (Kind C)
  last_of (some b) oh om ow oc = some (daemon b)
  last_of none (some c) om ow oc = some (chain c)
  last_of none none (some b) ow oc = some (manual b)
  last_of none none none (some w) oc = some (webhook w)
  last_of none none none none (some c) = some (cron c)
  last_of none none none none none = none

  abbrev pub last_set : TriggerPatch C → Option (Kind C)
  last_set p = last_of p.daemon p.chain p.manual p.webhook p.cron

  abbrev pub kinds_after : Option (Kind C) → Kinds C → Kinds C
  kinds_after none k = k
  kinds_after (some k') k = alone k'

  kinds-patch_restart :
      (r : Option String) (t : TriggerConfig C) → kinds_of (patch_restart r t) ≡ kinds_of t
  kinds-patch_restart none t = refl
  kinds-patch_restart (some r) t = refl

  kinds-patch_auth :
      (a : Option Bool) (t : TriggerConfig C) → kinds_of (patch_auth a t) ≡ kinds_of t
  kinds-patch_auth none t = refl
  kinds-patch_auth (some b) t = refl

  kinds-patches :
      (oc ow : Option String) (oa om : Option Bool) (oh : Option C) (od : Option Bool)
      (t : TriggerConfig C)
      → kinds_of (
          patch_daemon od
            (patch_chain oh (patch_manual om (patch_auth oa (patch_webhook ow (patch_cron oc t))))))
        ≡ kinds_after (last_of od oh om ow oc) (kinds_of t)
  kinds-patches oc ow oa om oh (some b) t = refl
  kinds-patches oc ow oa om (some h) none t = refl
  kinds-patches oc ow oa (some m) none none t = refl
  kinds-patches oc (some w) oa none none none t = kinds-patch_auth oa _
  kinds-patches (some c) none oa none none none t = kinds-patch_auth oa _
  kinds-patches none none oa none none none t = kinds-patch_auth oa _

  -- A patch that sets no trigger type leaves all five as they are; any other patch leaves exactly
  -- the last type that it sets, with its setting, and clears the other four.
  pub kinds-apply_trigger_patch :
      (p : TriggerPatch C) (t : TriggerConfig C)
      → kinds_of (apply_trigger_patch p t) ≡ kinds_after (last_set p) (kinds_of t)
  unfolding apply_trigger_patch
  kinds-apply_trigger_patch p t =
      kinds-patch_restart p.restart _
      ∙ kinds-patches p.cron p.webhook p.auth p.manual p.chain p.daemon t

  abbrev pub chain_set : Option C → ℕ
  chain_set none = 0
  chain_set (some c) = 1

  -- How many of the five are set, as `validate` of pkg/task/spec.go counts them.
  abbrev pub count_kinds : Kinds C → ℕ
  count_kinds k =
      string_set k.cron
      + string_set k.webhook
      + bool_set k.manual
      + bool_set k.daemon
      + chain_set k.chain

  count-alone : (k : Kind C) → count_kinds (alone k) ≤ 1
  count-alone (cron c) = ground arith
  count-alone (webhook w) = ground arith
  count-alone (manual b) = ground arith
  count-alone (chain c) = omega arith
  count-alone (daemon b) = ground arith

  count-kinds_after :
      (o : Option (Kind C)) (k : Kinds C) → count_kinds k ≤ 1 → count_kinds (kinds_after o k) ≤ 1
  count-kinds_after none k h = h
  count-kinds_after (some k') k h = count-alone k'

  -- Patches keep a task at one trigger type or none, so an overridden task is never refused for
  -- having several.
  pub count-apply_trigger_patch :
      (p : TriggerPatch C) (t : TriggerConfig C)
      → count_kinds (kinds_of t) ≤ 1
      → count_kinds (kinds_of (apply_trigger_patch p t)) ≤ 1
  count-apply_trigger_patch p t h =
      subst (λ k. count_kinds k ≤ 1) (sym (kinds-apply_trigger_patch p t))
        (count-kinds_after (last_set p) (kinds_of t) h)
