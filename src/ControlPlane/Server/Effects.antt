-- ===== src/ControlPlane/Server/Effects.antt =====
-- What an admin request does to the database: no more than the statements that its handler runs,
-- each for the tenant of the request.
pub mod Handlers
use flagship_platform.Shared.{
  ◌≡◌, ℕ, Bool, Option, none, refl, some, List, not, Option-cases, arith, true, inl, inr,
}
use flagship_platform.Js.Text.{JsString}
use flagship_platform.Core.Types.{Variation, TargetingRule}
use flagship_platform.Core.Visibility.{KeyKind}
use flagship_platform.ControlPlane.Database.{
  Database, Environment, FlagRecord, unique_violation, foreign_key_violation, environment_not_found,
  never_compiled, invalid_ruleset, Outcome, done, failed, Action, pure, gets,
}
use flagship_platform.ControlPlane.Database.Effects.{
  IsPreorder, Within, pure-Within, gets-Within, bind-Within, with_transaction-Within,
  attempt-Within, if-Within, throw-Within,
}
use flagship_platform.ControlPlane.Repository.Reads.{FlagDetail, get_flag}
use flagship_platform.ControlPlane.Repository.Writes.{
  CreateApiKeyInput, insert_api_key, AuditEntry, write_audit, CreateFlagInput, new_flag,
  insert_flag, insert_configs, create_flag, UpdateFlagConfigInput, update_configs, touch_flag,
  update_found, update_flag_config,
}
use flagship_platform.ControlPlane.Repository.Publish.{
  PublishOptions, PublishResult, publish_ruleset,
}
use flagship_platform.ControlPlane.Server.{
  Reply, finish, respond, Settings, Supply, present, both, require_admin,
}
use flagship_platform.ControlPlane.Server.Admin.{
  get_flags, after_publish, post_publish, create_key, post_api_keys, get_tenants, get_environments,
  get_segments, get_audit, kind_of, publish_as,
}
use flagship_platform.ControlPlane.Server.Admin.Flags.{
  get_flag_route, after_create, post_flags, after_update, patch_flag, is_key, create_checked,
  create_declared, declares_fallbacks, update_as, sent_flag,
}
use flagship_platform.ControlPlane.Server.Routes.{
  AdminRequest, admin_handler, admin_route, serve, Site, admin_request, list_flags_request,
  publish_request, create_key_request, list_tenants_request, list_environments_request,
  list_segments_request, read_flag_request, create_flag_request, patch_flag_request, audit_request,
}

-- The tenant that a request names, if it names one.
unfoldable pub tenant_of : AdminRequest → Option JsString
tenant_of (list_flags_request t e) = present t
tenant_of (publish_request t e k actor) = present t
tenant_of (create_key_request t e name kind) = present t
tenant_of list_tenants_request = none
tenant_of (list_environments_request t) = present t
tenant_of (list_segments_request t) = present t
tenant_of (read_flag_request key t e) = present t
tenant_of (create_flag_request t key description vs d o) = present t
tenant_of (patch_flag_request key t e enabled d o rules) = present t
tenant_of (audit_request t resource_key) = present t

pub both-first :
    {A B : Type 0} (a : Option A) (b : Option B) {x : A} {y : B}
    → both a b ≡ some (x, y)
    → a ≡ some x
both-first none b h = cc
both-first (some x) none h = cc
both-first (some x) (some y) h = cc

-- The statements, for the tenants that `Owned` holds of, relate the databases by `R`.
pub record Respects (R : Database → Database → Type 0) (Owned : JsString → Type 0)
    (settings : Settings) : Type 0 where
  pub preorder : IsPreorder R
  pub api_key :
      (id : JsString) (input : CreateApiKeyInput)
      → Owned input.tenant_id
      → Within R (insert_api_key id input)
  pub audit :
      (now : ℕ) (entry : AuditEntry) → Owned entry.tenant_id → Within R (write_audit now entry)
  pub flag : (f : FlagRecord) → Owned f.tenant_id → is_key f.key ≡ true → Within R (insert_flag f)
  pub configs :
      (input : CreateFlagInput) (flag_id : JsString) (environments : List Environment)
      → Owned input.tenant_id
      → Within R (insert_configs input flag_id environments)
  pub change :
      (input : UpdateFlagConfigInput) (previous : FlagDetail)
      → Owned input.tenant_id
      → Within R (update_configs input previous)
  pub touch :
      (now : ℕ) (tenant_id key : JsString)
      → Owned tenant_id
      → Within R (touch_flag now tenant_id key)
  pub publish :
      (served_at : JsString) (options : PublishOptions)
      → Owned options.tenant_id
      → Within R (publish_ruleset settings.engine served_at options)

pub finish-database : (result : Outcome Reply × Database) → (finish result).1 ≡ result.1
finish-database (done r, db) = refl
finish-database (failed e, db) = refl

-- The database after a request is what the handler leaves, also when it throws.
pub serve-admin_route :
    (settings : Settings) (supply : Supply) (authorization : Option JsString)
    (request : AdminRequest) (site : Site)
    → (serve settings supply (admin_request authorization request) site).1.database
      ≡ (admin_route settings supply authorization request site.database).1
unfolding serve respond
serve-admin_route settings supply authorization request site =
    finish-database (admin_route settings supply authorization request site.database)
