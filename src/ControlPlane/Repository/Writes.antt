-- ===== src/ControlPlane/Repository/Writes.antt =====
-- apps/control-plane/src/repository.ts: the queries that change one table or two. The ids, the salt
-- and the time that Postgres and Node draw are arguments.
use flagship_platform.Shared.{
  ℕ, Bool, true, false, ◌&&◌, Option, none, some, List, [], ◌∷◌, ◌++◌, if◌then◌else◌, any, filter,
}
use flagship_platform.Js.Text.{JsString, js, str_eq}
use flagship_platform.Core.Types.{Variation, TargetingRule}
use flagship_platform.Core.Visibility.{KeyKind}
use flagship_platform.ControlPlane.Database.{
  Environment, FlagRecord, FlagConfig, ApiKey, AuditValue, AuditRow, Database, unique_violation,
  foreign_key_violation, done, failed, Action, pure, gets, ◌>>=◌, ◌>>◌, with_transaction,
}
use flagship_platform.ControlPlane.Repository.{update_where, has_tenant, has_environment}
use flagship_platform.ControlPlane.Repository.Reads.{FlagDetail, get_flag}

-- `touchKeyUsage`, when the update succeeds; a failure of it is caught.
unfoldable pub touch_key_usage : (now : ℕ) → (api_key_id : JsString) → Action (Unit {0})
touch_key_usage now api_key_id db = (
  done tt,
  record db {
    api_keys =
        update_where (λ k. str_eq k.id api_key_id) (λ k. record k { last_used_at = some now })
          db.api_keys;
  },
)

pub record CreateApiKeyInput : Type 0 where
  pub tenant_id : JsString
  pub environment_id : JsString
  pub name : JsString
  pub kind : KeyKind
  pub prefix : JsString
  pub hash : JsString

unfoldable pub key_row : (id : JsString) → CreateApiKeyInput → ApiKey
key_row id input = record {
  id = id;
  tenant_id = input.tenant_id;
  environment_id = input.environment_id;
  name = input.name;
  kind = input.kind;
  key_prefix = input.prefix;
  key_hash = input.hash;
  last_used_at = none;
  revoked = false;
}

unfoldable pub insert_api_key : (id : JsString) → CreateApiKeyInput → Action JsString
insert_api_key id input db =
    if has_tenant db input.tenant_id && has_environment db input.environment_id
    then (done id, record db { api_keys = db.api_keys ++ key_row id input ∷ [] })
    else (failed foreign_key_violation, db)

pub record AuditEntry : Type 0 where
  pub tenant_id : JsString
  pub environment_id : Option JsString
  pub actor_id : JsString
  pub actor_email : JsString
  pub action : JsString
  pub resource_type : JsString
  pub resource_key : JsString
  pub previous_value : Option AuditValue
  pub new_value : Option AuditValue

unfoldable pub audit_row : (now : ℕ) → AuditEntry → AuditRow
audit_row now entry = record {
  tenant_id = entry.tenant_id;
  environment_id = entry.environment_id;
  actor_id = entry.actor_id;
  actor_email = entry.actor_email;
  action = entry.action;
  resource_type = entry.resource_type;
  resource_key = entry.resource_key;
  previous_value = entry.previous_value;
  new_value = entry.new_value;
  created_at = now;
}

-- A null reference is not checked.
unfoldable pub has_environment_or_null : Database → Option JsString → Bool
has_environment_or_null db none = true
has_environment_or_null db (some id) = has_environment db id

unfoldable pub write_audit : (now : ℕ) → AuditEntry → Action (Unit {0})
write_audit now entry db =
    if has_tenant db entry.tenant_id && has_environment_or_null db entry.environment_id
    then (done tt, record db { audit_log = db.audit_log ++ audit_row now entry ∷ [] })
    else (failed foreign_key_violation, db)

pub record CreateFlagInput : Type 0 where
  pub tenant_id : JsString
  pub key : JsString
  pub description : JsString
  pub variations : List Variation
  pub default_variation_key : JsString
  pub off_variation_key : JsString

-- The inserted row, with the defaults of its table.
unfoldable pub new_flag : (now : ℕ) → (id salt : JsString) → CreateFlagInput → FlagRecord
new_flag now id salt input = record {
  id = id;
  tenant_id = input.tenant_id;
  key = input.key;
  description = input.description;
  salt = salt;
  bucket_by = js "key";
  variations = input.variations;
  archived = false;
  updated_at = now;
}

-- UNIQUE (tenant_id, key), which archived flags keep too.
unfoldable pub key_taken : Database → (tenant_id key : JsString) → Bool
key_taken db tenant_id key = any (λ f. str_eq f.tenant_id tenant_id && str_eq f.key key) db.flags

-- INSERT INTO flags … RETURNING id
unfoldable pub insert_flag : FlagRecord → Action JsString
insert_flag f db =
    if key_taken db f.tenant_id f.key
    then (failed unique_violation, db)
    else if has_tenant db f.tenant_id
    then (done f.id, record db { flags = db.flags ++ f ∷ [] })
    else (failed foreign_key_violation, db)

unfoldable pub new_config : CreateFlagInput → (flag_id : JsString) → Environment → FlagConfig
new_config input flag_id environment = record {
  tenant_id = input.tenant_id;
  flag_id = flag_id;
  environment_id = environment.id;
  enabled = false;
  default_variation_key = input.default_variation_key;
  off_variation_key = input.off_variation_key;
  rules = [];
  prerequisites = [];
}

-- INSERT INTO flag_configs. The row refers to rows that the transaction has read, and is the only
-- one with the new flag's id and this environment.
unfoldable pub insert_config : FlagConfig → Action (Unit {0})
insert_config c db = (done tt, record db { configs = db.configs ++ c ∷ [] })

-- The loop over the environments.
unfoldable pub insert_configs :
    CreateFlagInput → (flag_id : JsString) → List Environment → Action (Unit {0})
insert_configs input flag_id [] = pure tt
insert_configs input flag_id (environment ∷ environments) = do
  insert_config (new_config input flag_id environment)
  insert_configs input flag_id environments

-- SELECT id FROM environments WHERE tenant_id = $1
unfoldable pub environments_of : (tenant_id : JsString) → Database → List Environment
environments_of tenant_id db = filter (λ e. str_eq e.tenant_id tenant_id) db.environments

unfoldable pub create_flag : (now : ℕ) → (id salt : JsString) → CreateFlagInput → Action (Unit {0})
create_flag now id salt input = with_transaction do
  flag_id ← insert_flag (new_flag now id salt input)
  environments ← gets (environments_of input.tenant_id)
  insert_configs input flag_id environments

-- A field that is absent is `none`.
pub record UpdateFlagConfigInput : Type 0 where
  pub tenant_id : JsString
  pub environment_id : JsString
  pub key : JsString
  pub enabled : Option Bool
  pub default_variation_key : Option JsString
  pub off_variation_key : Option JsString
  pub rules : Option (List TargetingRule)

-- a ?? b
abbrev pub given_or : {A : Type 0} → Option A → A → A
given_or none b = b
given_or (some a) b = a

-- The join with `flags`: the config's flag has the key, whatever its tenant.
unfoldable pub is_config_of : Database → UpdateFlagConfigInput → FlagConfig → Bool
is_config_of db input c =
    any (λ f. str_eq c.flag_id f.id && str_eq f.key input.key) db.flags
    && (str_eq c.tenant_id input.tenant_id && str_eq c.environment_id input.environment_id)

-- The merged columns, from the flag as it was.
unfoldable pub changed_config : UpdateFlagConfigInput → FlagDetail → FlagConfig → FlagConfig
changed_config input previous c = record c {
  enabled = given_or input.enabled previous.enabled;
  default_variation_key = given_or input.default_variation_key previous.default_variation_key;
  off_variation_key = given_or input.off_variation_key previous.off_variation_key;
  rules = given_or input.rules previous.rules;
}

-- UPDATE flag_configs
unfoldable pub update_configs : UpdateFlagConfigInput → FlagDetail → Action (Unit {0})
update_configs input previous db = (
  done tt,
  record db {
    configs = update_where (is_config_of db input) (changed_config input previous) db.configs;
  },
)

-- UPDATE flags
unfoldable pub touch_flag : (now : ℕ) → (tenant_id key : JsString) → Action (Unit {0})
touch_flag now tenant_id key db = (
  done tt,
  record db {
    flags =
        update_where (λ f. str_eq f.tenant_id tenant_id && str_eq f.key key)
          (λ f. record f { updated_at = now }) db.flags;
  },
)

-- What follows once the flag as it was is known: `previous`, if there is one.
unfoldable pub update_found :
    (now : ℕ) → UpdateFlagConfigInput → Option FlagDetail → Action (Option FlagDetail)
update_found now input none = pure none
update_found now input (some previous) = do
  update_configs input previous
  touch_flag now input.tenant_id input.key
  pure (some previous)

unfoldable pub update_flag_config : (now : ℕ) → UpdateFlagConfigInput → Action (Option FlagDetail)
update_flag_config now input = do
  previous ← gets (λ db. get_flag db input.tenant_id input.environment_id input.key)
  update_found now input previous
