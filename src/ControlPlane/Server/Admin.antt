-- ===== src/ControlPlane/Server/Admin.antt =====
-- apps/control-plane/src/server.ts: the handlers of the admin routes, behind `requireAdmin`; those
-- for flags are in Flags.
pub mod Flags
use flagship_platform.Shared.{
  ℕ, Bool, true, false, not, ◌&&◌, ◌||◌, Option, none, some, List, [], ◌∷◌, ◌++◌, map,
  if◌then◌else◌, leb, ◌==◌,
}
use flagship_platform.Js.Text.{JsString, js, str_eq}
use flagship_platform.Js.Set.{has}
use flagship_platform.Js.Value.{JsValue}
use flagship_platform.Core.Types.{Variation, TargetingRule}
use flagship_platform.Core.Visibility.{KeyKind}
use flagship_platform.ControlPlane.Keys.{generate_api_key}
use flagship_platform.ControlPlane.Ruleset.{set_of}
use flagship_platform.ControlPlane.Database.{
  published_version, created_key, created_flag, configured, unique_violation, invalid_ruleset,
  Outcome, done, failed, Action, pure, throw, gets, attempt, ◌>>=◌, ◌>>◌,
}
use flagship_platform.ControlPlane.Repository.Reads.{
  FlagDetail, list_flags, list_tenants, list_environments, list_segments, get_flag, list_audit,
}
use flagship_platform.ControlPlane.Repository.Writes.{
  insert_api_key, write_audit, CreateFlagInput, create_flag, UpdateFlagConfigInput,
  update_flag_config, given_or,
}
use flagship_platform.ControlPlane.Repository.Publish.{
  PublishOptions, PublishResult, publish_ruleset,
}
use flagship_platform.ControlPlane.Server.{
  Reply, reply, refuse, Settings, Supply, present, both, no_body, problems_body, flags_body,
  flag_body, published_body, created_key_body, created_flag_body, tenants_body, environments_body,
  segments_body, audit_body,
}

-- kind !== 'client' && kind !== 'server'
unfoldable pub kind_of : Option JsString → Option KeyKind
kind_of none = none
kind_of (some kind) =
    if str_eq kind (js "client")
    then some KeyKind.client
    else if str_eq kind (js "server")
    then some KeyKind.server
    else none

module _ (settings : Settings) (supply : Supply) where
  open settings use {engine}
  open supply use {now}

  -- GET /v1/flags
  unfoldable pub get_flags : (tenant_id environment_id : Option JsString) → Action Reply
  get_flags tenant_id environment_id = elim (both (present tenant_id) (present environment_id)) [
    | none ↦ pure (refuse 400 (js "tenantId and environmentId are required"))
    | some (t, e) ↦ gets (λ db. reply 200 (flags_body (list_flags engine db t e)))
  ]

  -- What follows the `try`; the push is sent when a data plane is configured.
  unfoldable pub after_publish :
      PublishOptions → (actor : JsString) → Outcome PublishResult → Action Reply
  after_publish options actor (failed (invalid_ruleset problems)) =
      pure (reply 422 (problems_body problems))
  after_publish options actor (failed e) = throw e
  after_publish options actor (done p) = do
    write_audit now (record {
      tenant_id = options.tenant_id;
      environment_id = some options.environment_id;
      actor_id = actor;
      actor_email = actor;
      action = js "publish";
      resource_type = js "ruleset";
      resource_key = options.environment_key;
      previous_value = none;
      new_value = some (published_version p.version);
    })
    pure (record {
      status = 200;
      headers = [];
      body = published_body p.version p.etag (settings.has_data_plane && supply.push_succeeds);
      pushes =
          if settings.has_data_plane
          then record {
            environment = options.environment_key;
            version = p.version;
            payload = p.compiled_ruleset.server;
          }
            ∷ []
          else [];
    })

  unfoldable pub publish_as : PublishOptions → (actor : JsString) → Action Reply
  publish_as options actor = do
    published ← attempt (publish_ruleset engine supply.served_at options)
    after_publish options actor published

  -- POST /v1/publish
  unfoldable pub post_publish :
      (tenant_id environment_id environment_key actor_email : Option JsString) → Action Reply
  post_publish tenant_id environment_id environment_key actor_email =
      elim (both (present tenant_id) (both (present environment_id) (present environment_key))) [
        | none ↦ pure (refuse 400 (js "tenantId, environmentId and environmentKey are required"))
        | some (t, (e, k)) ↦
            let actor = given_or actor_email (js "unknown") in
            publish_as
              (record {
                tenant_id = t;
                environment_id = e;
                environment_key = k;
                published_by = actor;
              })
              actor
      ]

  unfoldable pub create_key : (t e name : JsString) → KeyKind → Action Reply
  create_key t e name kind = do
    let generated = generate_api_key engine.crypto kind supply.secret
    id ← insert_api_key supply.id (record {
      tenant_id = t;
      environment_id = e;
      name = name;
      kind = kind;
      prefix = generated.prefix;
      hash = generated.hash;
    })
    write_audit now (record {
      tenant_id = t;
      environment_id = some e;
      actor_id = js "admin";
      actor_email = js "admin";
      action = js "create";
      resource_type = js "api_key";
      resource_key = name;
      previous_value = none;
      new_value = some (created_key kind generated.prefix);
    })
    pure (reply 201 (created_key_body id generated.plaintext kind generated.prefix))

  -- POST /v1/api-keys
  unfoldable pub post_api_keys :
      (tenant_id environment_id name kind : Option JsString) → Action Reply
  post_api_keys tenant_id environment_id name kind =
      elim (both (present tenant_id) (both (present environment_id) (present name))) [
        | none ↦ pure (refuse 400 (js "tenantId, environmentId and name are required"))
        | some (t, (e, n)) ↦ elim (kind_of kind) [
          | none ↦ pure (refuse 400 (js "kind must be \"client\" or \"server\""))
          | some k ↦ create_key t e n k
        ]
      ]

  -- GET /v1/tenants
  unfoldable pub get_tenants : Action Reply
  get_tenants = gets (λ db. reply 200 (tenants_body (list_tenants engine db)))

  -- GET /v1/environments
  unfoldable pub get_environments : (tenant_id : Option JsString) → Action Reply
  get_environments tenant_id = elim (present tenant_id) [
    | none ↦ pure (refuse 400 (js "tenantId is required"))
    | some t ↦ gets (λ db. reply 200 (environments_body (list_environments engine db t)))
  ]

  -- GET /v1/segments
  unfoldable pub get_segments : (tenant_id : Option JsString) → Action Reply
  get_segments tenant_id = elim (present tenant_id) [
    | none ↦ pure (refuse 400 (js "tenantId is required"))
    | some t ↦ gets (λ db. reply 200 (segments_body (list_segments engine db t)))
  ]

  -- GET /v1/audit
  unfoldable pub get_audit : (tenant_id resource_key : Option JsString) → Action Reply
  get_audit tenant_id resource_key = elim (present tenant_id) [
    | none ↦ pure (refuse 400 (js "tenantId is required"))
    | some t ↦ gets (λ db. reply 200 (audit_body (list_audit db t (present resource_key) none)))
  ]
