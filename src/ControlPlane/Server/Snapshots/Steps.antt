-- ===== src/ControlPlane/Server/Snapshots/Steps.antt =====
-- Every request keeps the published snapshots sound, and only appends to them.
use flagship_platform.ControlPlane.Server.Snapshots.{
  Extends, Extends-IsPreorder, untouched, published-Extends,
}
use flagship_platform.Shared.{refl, sym, subst, ℕ, List, [], ◌∷◌, arith}
use flagship_platform.Js.Text.{JsString}
use flagship_platform.ControlPlane.Database.{
  Database, Environment, FlagRecord, FlagConfig, Outcome, done, failed,
}
use flagship_platform.ControlPlane.Database.Effects.{Within, pure-Within, bind-Within}
use flagship_platform.ControlPlane.Repository.{Engine}
use flagship_platform.ControlPlane.Repository.Reads.{FlagDetail}
use flagship_platform.ControlPlane.Repository.Writes.{
  CreateApiKeyInput, insert_api_key, AuditEntry, write_audit, CreateFlagInput, insert_flag,
  insert_config, insert_configs, UpdateFlagConfigInput, update_configs, touch_flag, touch_key_usage,
}
use flagship_platform.ControlPlane.Server.{Settings, Supply}
use flagship_platform.ControlPlane.Server.Routes.{Request, Site, serve, Reach}
use flagship_platform.ControlPlane.Server.Requests.{serve-related, Reach-related}
use flagship_platform.ControlPlane.Server.Effects.{Respects}
use flagship_platform.ControlPlane.Repository.Publish.{PublishOptions, PublishResult}
use flagship_platform.ControlPlane.Repository.Publish.Outcomes.{
  Publishes, publish_ruleset-Publishes,
}

api_key-Extends :
    (id : JsString) (input : CreateApiKeyInput) → Within Extends (insert_api_key id input)
unfolding insert_api_key
api_key-Extends id input = record { related = λ db. untouched db _ (ground arith) (ground arith) }

audit-Extends : (now : ℕ) (entry : AuditEntry) → Within Extends (write_audit now entry)
unfolding write_audit
audit-Extends now entry = record { related = λ db. untouched db _ (ground arith) (ground arith) }

flag-Extends : (f : FlagRecord) → Within Extends (insert_flag f)
unfolding insert_flag
flag-Extends f = record { related = λ db. untouched db _ (ground arith) (ground arith) }

config-Extends : (c : FlagConfig) → Within Extends (insert_config c)
unfolding insert_config
config-Extends c = record { related = λ db. untouched db _ refl refl }

configs-Extends :
    (input : CreateFlagInput) (flag_id : JsString) (environments : List Environment)
    → Within Extends (insert_configs input flag_id environments)
unfolding insert_configs
configs-Extends input flag_id [] = pure-Within Extends-IsPreorder _
configs-Extends input flag_id (e ∷ environments) =
    bind-Within Extends-IsPreorder _ _ (config-Extends _)
      (λ _. configs-Extends input flag_id environments)

change-Extends :
    (input : UpdateFlagConfigInput) (previous : FlagDetail)
    → Within Extends (update_configs input previous)
unfolding update_configs
change-Extends input previous = record { related = λ db. untouched db _ refl refl }

touch-Extends : (now : ℕ) (tenant_id key : JsString) → Within Extends (touch_flag now tenant_id key)
unfolding touch_flag
touch-Extends now tenant_id key = record { related = λ db. untouched db _ refl refl }

key_usage-Extends : (now : ℕ) (id : JsString) → Within Extends (touch_key_usage now id)
unfolding touch_key_usage
key_usage-Extends now id = record { related = λ db. untouched db _ refl refl }

published_outcome-Extends :
    (engine : Engine) (served_at : JsString) (options : PublishOptions) (db : Database)
    (result : Outcome PublishResult × Database)
    → Publishes engine served_at options db result
    → Extends db result.1
published_outcome-Extends engine served_at options db (done p, db') h =
    published-Extends engine served_at options db db' p h
published_outcome-Extends engine served_at options db (failed e, db') (same, _) =
    subst (Extends db) (sym same) (Extends-IsPreorder.same db)

Extends-Respects : (settings : Settings) → Respects Extends (λ _. Unit) settings
Extends-Respects settings = record {
  preorder = Extends-IsPreorder;
  api_key = λ id input _. api_key-Extends id input;
  audit = λ now entry _. audit-Extends now entry;
  flag = λ f _ _. flag-Extends f;
  configs = λ input id es _. configs-Extends input id es;
  change = λ input previous _. change-Extends input previous;
  touch = λ now t key _. touch-Extends now t key;
  publish = λ served_at options _. record {
    related = λ db.
        published_outcome-Extends settings.engine served_at options db _
          (publish_ruleset-Publishes settings.engine served_at options db);
  };
}

pub serve-Extends :
    (settings : Settings) (supply : Supply) (request : Request) (site : Site)
    → Extends site.database (serve settings supply request site).1.database
serve-Extends settings supply request site =
    serve-related settings (Extends-Respects settings) key_usage-Extends supply request site

pub Reach-Extends :
    (settings : Settings) (start site : Site)
    → Reach settings start site
    → Extends start.database site.database
Reach-Extends settings start site reach =
    Reach-related settings (Extends-Respects settings) key_usage-Extends start site reach
