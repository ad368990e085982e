-- ===== src/Taskset/Override.antt =====
-- pkg/taskset/override.go: how a patch changes a task's trigger and its params.
pub mod Triggers
pub mod Params
use dicode_core.Prelude.{
  ℕ, suc, ◌+◌, String, Bool, true, false, ◌||◌, Option, none, some, List, [], ◌∷◌, ◌++◌, length,
  get_elem?, set, contains, nat_beq, ◌==◌, if◌then◌else◌, string_eq,
}
use dicode_core.Prelude.Dict.{lookup, insert}

pub data WebhookAuthMode : Type 0 where
  auth_none auth_session auth_any : WebhookAuthMode

-- A chain trigger is only ever copied whole, so its type `C` stays open.
pub record TriggerConfig (C : Type 0) : Type 0 where
  pub cron : String
  pub webhook : String
  pub webhook_secret : String
  pub webhook_auth : WebhookAuthMode
  pub manual : Bool
  pub chain : Option C
  pub daemon : Bool
  pub restart : String

-- `none` is the nil pointer of a field that is not patched.
pub record TriggerPatch (C : Type 0) : Type 0 where
  pub cron : Option String
  pub webhook : Option String
  pub auth : Option Bool
  pub manual : Option Bool
  pub chain : Option C
  pub daemon : Option Bool
  pub restart : Option String

module _ {C : Type 0} where
  abbrev pub patch_cron : Option String → TriggerConfig C → TriggerConfig C
  patch_cron none t = t
  patch_cron (some c) t = record t {
    cron = c;
    webhook = "";
    webhook_auth = auth_none;
    manual = false;
    chain = none;
    daemon = false;
  }

  abbrev pub patch_webhook : Option String → TriggerConfig C → TriggerConfig C
  patch_webhook none t = t
  patch_webhook (some w) t = record t {
    webhook = w;
    cron = "";
    manual = false;
    chain = none;
    daemon = false;
  }

  abbrev pub patch_auth : Option Bool → TriggerConfig C → TriggerConfig C
  patch_auth none t = t
  patch_auth (some b) t = record t { webhook_auth = if b then auth_session else auth_none }

  abbrev pub patch_manual : Option Bool → TriggerConfig C → TriggerConfig C
  patch_manual none t = t
  patch_manual (some b) t = record t {
    manual = b;
    cron = "";
    webhook = "";
    webhook_auth = auth_none;
    chain = none;
    daemon = false;
  }

  abbrev pub patch_chain : Option C → TriggerConfig C → TriggerConfig C
  patch_chain none t = t
  patch_chain (some c) t = record t {
    chain = some c;
    cron = "";
    webhook = "";
    webhook_auth = auth_none;
    manual = false;
    daemon = false;
  }

  abbrev pub patch_daemon : Option Bool → TriggerConfig C → TriggerConfig C
  patch_daemon none t = t
  patch_daemon (some b) t = record t {
    daemon = b;
    cron = "";
    webhook = "";
    webhook_auth = auth_none;
    manual = false;
    chain = none;
  }

  abbrev pub patch_restart : Option String → TriggerConfig C → TriggerConfig C
  patch_restart none t = t
  patch_restart (some r) t = record t { restart = r }

  unfoldable pub apply_trigger_patch : TriggerPatch C → TriggerConfig C → TriggerConfig C
  apply_trigger_patch p t = patch_restart p.restart (
      patch_daemon p.daemon (
        patch_chain p.chain (
          patch_manual p.manual
            (patch_auth p.auth (patch_webhook p.webhook (patch_cron p.cron t))))))

pub record Param : Type 0 where
  pub name : String
  pub kind : String
  pub default : String
  pub description : String
  pub required : Bool

pub record ParamOverride : Type 0 where
  pub name : String
  pub default : String
  pub required : Option Bool

abbrev pub required_or : Option Bool → Bool → Bool
required_or none b = b
required_or (some r) b = r

-- The inner loop of `mergeParams` and the append after it: the first param of the name is patched.
unfoldable pub merge_param : ParamOverride → List Param → List Param
merge_param po [] =
    record {
      name = po.name;
      kind = "";
      default = po.default;
      description = "";
      required = required_or po.required false;
    }
    ∷ []
merge_param po (p ∷ ps) =
    if p.name == po.name
    then record p { default = po.default; required = required_or po.required p.required } ∷ ps
    else p ∷ merge_param po ps

unfoldable pub merge_params : List Param → List ParamOverride → List Param
merge_params ps [] = ps
merge_params ps (po ∷ pos) = merge_params (merge_param po ps) pos
