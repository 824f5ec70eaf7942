-- ===== src/ControlPlane/Repository/Reads.antt =====
-- apps/control-plane/src/repository.ts: the queries that only read.
use Prim.Native.Nat.{min}
use flagship_platform.Shared.{
  ℕ, Bool, true, false, not, ◌&&◌, Option, none, some, List, [], ◌∷◌, ◌++◌, map, if◌then◌else◌,
  take, filter, length, ltb, leb,
}
use flagship_platform.Js.Text.{JsString, js, str_eq}
use flagship_platform.Core.Types.{
  Variation, TargetingRule, Prerequisite, Flag, Segment, RuleNode, RulesetSnapshot,
}
use flagship_platform.Core.Visibility.{KeyKind}
use flagship_platform.ControlPlane.Keys.{key_prefix, verify_api_key}
use flagship_platform.ControlPlane.Batch.{AuthenticatedKey}
use flagship_platform.ControlPlane.Database.{
  Tenant, SegmentRecord, FlagRecord, FlagConfig, ApiKey, AuditRow, SnapshotRow, Database,
}
use flagship_platform.ControlPlane.Repository.{Engine, order_by, find}

-- LEFT JOIN flag_configs c ON c.flag_id = f.id AND c.environment_id = $2
unfoldable pub config_of : Database → (environment_id flag_id : JsString) → Option FlagConfig
config_of db environment_id flag_id =
    find (λ c. str_eq c.flag_id flag_id && str_eq c.environment_id environment_id) db.configs

-- The columns of the join, with what COALESCE gives where there is no row.
pub record JoinedConfig : Type 0 where
  pub enabled : Bool
  pub default_variation_key : JsString
  pub off_variation_key : JsString
  pub rules : List TargetingRule
  pub prerequisites : List Prerequisite

abbrev pub coalesce : Option FlagConfig → JoinedConfig
coalesce none = record {
  enabled = false;
  default_variation_key = [];
  off_variation_key = [];
  rules = [];
  prerequisites = [];
}
coalesce (some c) = record {
  enabled = c.enabled;
  default_variation_key = c.default_variation_key;
  off_variation_key = c.off_variation_key;
  rules = c.rules;
  prerequisites = c.prerequisites;
}

unfoldable pub joined : Database → (environment_id : JsString) → FlagRecord → JoinedConfig
joined db environment_id f = coalesce (config_of db environment_id f.id)

-- WHERE f.tenant_id = $1 AND f.archived_at IS NULL
unfoldable pub flags_of : Database → (tenant_id : JsString) → List FlagRecord
flags_of db tenant_id = filter (λ f. str_eq f.tenant_id tenant_id && not f.archived) db.flags

pub record FlagSummary : Type 0 where
  pub key : JsString
  pub description : JsString
  pub enabled : Bool
  pub variations : List Variation
  pub updated_at : ℕ

pub record FlagDetail : Type 0 where
  pub key : JsString
  pub description : JsString
  pub salt : JsString
  pub bucket_by : JsString
  pub variations : List Variation
  pub enabled : Bool
  pub default_variation_key : JsString
  pub off_variation_key : JsString
  pub rules : List TargetingRule
  pub prerequisites : List Prerequisite
  pub updated_at : ℕ

pub record EnvironmentSummary : Type 0 where
  pub id : JsString
  pub key : JsString
  pub name : JsString
  pub version : ℕ

pub record SegmentSummary : Type 0 where
  pub key : JsString
  pub description : JsString
  pub rule_tree : RuleNode

-- What `latestSnapshot` returns.
pub record LatestSnapshot : Type 0 where
  pub version : ℕ
  pub etag : JsString
  pub payload : RulesetSnapshot

unfoldable pub detail_of : FlagRecord → JoinedConfig → FlagDetail
detail_of f c = record {
  key = f.key;
  description = f.description;
  salt = f.salt;
  bucket_by = f.bucket_by;
  variations = f.variations;
  enabled = c.enabled;
  default_variation_key = c.default_variation_key;
  off_variation_key = c.off_variation_key;
  rules = c.rules;
  prerequisites = c.prerequisites;
  updated_at = f.updated_at;
}

unfoldable pub get_flag : Database → (tenant_id environment_id key : JsString) → Option FlagDetail
get_flag db tenant_id environment_id key =
    elim (find (λ f. str_eq f.key key) (flags_of db tenant_id)) [
      | none ↦ none
      | some f ↦ some (detail_of f (joined db environment_id f))
    ]

abbrev pub kind_name : KeyKind → JsString
kind_name KeyKind.client = js "client"
kind_name KeyKind.server = js "server"

-- The column that the query names.
unfoldable pub payload_for : KeyKind → SnapshotRow → RulesetSnapshot
payload_for KeyKind.client row = row.client_payload
payload_for KeyKind.server row = row.server_payload

-- ORDER BY version DESC LIMIT 1
unfoldable pub newest : List SnapshotRow → Option SnapshotRow
newest [] = none
newest (row ∷ rows) = elim (newest rows) [
  | none ↦ some row
  | some other ↦ some (if ltb row.version other.version then other else row)
]

unfoldable pub latest_snapshot :
    Database → (environment_id : JsString) → KeyKind → Option LatestSnapshot
latest_snapshot db environment_id kind =
    elim (newest (filter (λ row. str_eq row.environment_id environment_id) db.snapshots)) [
      | none ↦ none
      | some row ↦ some (record {
        version = row.version;
        etag = js "\"" ++ (kind_name kind ++ (js "-" ++ (row.etag ++ js "\"")));
        payload = payload_for kind row;
      })
    ]

-- AuditRow's columns that `listAudit` selects are those of the row but for the actor's id.
unfoldable pub list_audit :
    Database
    → (tenant_id : JsString) → (resource_key : Option JsString) → (limit : Option ℕ) → List AuditRow
list_audit db tenant_id resource_key limit =
    let wanted = λ (row : AuditRow).
      str_eq row.tenant_id tenant_id
      && elim resource_key [ none ↦ true | some key ↦ str_eq row.resource_key key ] in
    take (min (elim limit [ none ↦ 50 | some n ↦ n ]) 200)
      (order_by (λ a b. leb b.created_at a.created_at) (filter wanted db.audit_log))

module _ (engine : Engine) where
  open engine use {text_le, crypto}

  unfoldable pub list_flags : Database → (tenant_id environment_id : JsString) → List FlagSummary
  list_flags db tenant_id environment_id =
      map
        (λ (f : FlagRecord). record {
          key = f.key;
          description = f.description;
          enabled = (joined db environment_id f).enabled;
          variations = f.variations;
          updated_at = f.updated_at;
        })
        (order_by (λ f g. text_le f.key g.key) (flags_of db tenant_id))

  -- The rows as `compileRuleset` casts them.
  unfoldable pub flag_row : Database → (environment_id : JsString) → FlagRecord → Flag
  flag_row db environment_id f =
      let c = joined db environment_id f in
      record {
        key = f.key;
        enabled = c.enabled;
        salt = f.salt;
        bucket_by = f.bucket_by;
        variations = f.variations;
        default_variation_key = c.default_variation_key;
        off_variation_key = c.off_variation_key;
        prerequisites = c.prerequisites;
        rules = c.rules;
      }

  unfoldable pub load_flags : Database → (tenant_id environment_id : JsString) → List Flag
  load_flags db tenant_id environment_id =
      map (flag_row db environment_id)
        (order_by (λ f g. text_le f.key g.key) (flags_of db tenant_id))

  unfoldable pub segments_of : Database → (tenant_id : JsString) → List SegmentRecord
  segments_of db tenant_id =
      order_by (λ s t. text_le s.key t.key) (filter (λ s. str_eq s.tenant_id tenant_id) db.segments)

  unfoldable pub load_segments : Database → (tenant_id : JsString) → List Segment
  load_segments db tenant_id =
      map (λ s. record { key = s.key; when = s.rule_tree }) (segments_of db tenant_id)

  unfoldable pub list_segments : Database → (tenant_id : JsString) → List SegmentSummary
  list_segments db tenant_id =
      map (λ s. record { key = s.key; description = s.description; rule_tree = s.rule_tree })
        (segments_of db tenant_id)

  unfoldable pub list_tenants : Database → List Tenant
  list_tenants db = order_by (λ s t. text_le s.slug t.slug) db.tenants

  unfoldable pub list_environments : Database → (tenant_id : JsString) → List EnvironmentSummary
  list_environments db tenant_id =
      map (λ e. record { id = e.id; key = e.key; name = e.name; version = e.version })
        (order_by (λ d e. text_le d.key e.key)
          (filter (λ e. str_eq e.tenant_id tenant_id) db.environments))

  -- JOIN environments e ON e.id = k.environment_id, and the scope that the row gives.
  unfoldable pub scope_of : Database → ApiKey → Option AuthenticatedKey
  scope_of db k = elim (find (λ e. str_eq e.id k.environment_id) db.environments) [
    | none ↦ none
    | some e ↦ some (record {
      tenant_id = k.tenant_id;
      environment_id = k.environment_id;
      environment_key = e.key;
      kind = k.kind;
      api_key_id = k.id;
    })
  ]

  -- The loop over the rows: the first whose hash matches.
  unfoldable pub first_verified :
      Database → (plaintext : JsString) → List ApiKey → Option AuthenticatedKey
  first_verified db plaintext [] = none
  first_verified db plaintext (k ∷ ks) =
      let rest = first_verified db plaintext ks in
      elim (scope_of db k) [
        | none ↦ rest
        | some scope ↦ if verify_api_key crypto plaintext k.key_hash then some scope else rest
      ]

  unfoldable pub authenticate_key : Database → (plaintext : JsString) → Option AuthenticatedKey
  authenticate_key db plaintext =
      let prefix = key_prefix plaintext in
      if ltb (length prefix) 8
      then none
      else first_verified db plaintext
          (filter (λ k. str_eq k.key_prefix prefix && not k.revoked) db.api_keys)
