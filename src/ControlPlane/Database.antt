-- ===== src/ControlPlane/Database.antt =====
-- apps/control-plane/migrations/001_initial.sql, the tables, and apps/control-plane/src/db.ts, the
-- transactions over them. A JSONB column holds a value of the type that the code casts it to.
-- Times are in milliseconds; a nullable time of which only the presence is asked is a Boolean. A
-- column that no query reads is left out.
pub mod Effects
use flagship_platform.Shared.{ℕ, Bool, Option, List}
use flagship_platform.Js.Text.{JsString}
use flagship_platform.Core.Types.{Variation, TargetingRule, Prerequisite, RuleNode, RulesetSnapshot}
use flagship_platform.Core.Visibility.{KeyKind}
use flagship_platform.ControlPlane.Ruleset.{Problem}

pub record Tenant : Type 0 where
  pub id : JsString
  pub slug : JsString
  pub name : JsString

pub record Environment : Type 0 where
  pub id : JsString
  pub tenant_id : JsString
  pub key : JsString
  pub name : JsString
  pub version : ℕ

pub record SegmentRecord : Type 0 where
  pub tenant_id : JsString
  pub key : JsString
  pub description : JsString
  pub rule_tree : RuleNode

pub record FlagRecord : Type 0 where
  pub id : JsString
  pub tenant_id : JsString
  pub key : JsString
  pub description : JsString
  pub salt : JsString
  pub bucket_by : JsString
  pub variations : List Variation
  pub archived : Bool
  pub updated_at : ℕ

pub record FlagConfig : Type 0 where
  pub tenant_id : JsString
  pub flag_id : JsString
  pub environment_id : JsString
  pub enabled : Bool
  pub default_variation_key : JsString
  pub off_variation_key : JsString
  pub rules : List TargetingRule
  pub prerequisites : List Prerequisite

pub record ApiKey : Type 0 where
  pub id : JsString
  pub tenant_id : JsString
  pub environment_id : JsString
  pub name : JsString
  pub kind : KeyKind
  pub key_prefix : JsString
  pub key_hash : JsString
  pub last_used_at : Option ℕ
  pub revoked : Bool

-- The values that the audit log records.
pub data AuditValue : Type 0 where
  published_version : ℕ → AuditValue
  created_key : KeyKind → (prefix : JsString) → AuditValue
  created_flag : List Variation → (default_key off_key : JsString) → AuditValue
  configured : (enabled : Bool) → List TargetingRule → AuditValue

pub record AuditRow : Type 0 where
  pub tenant_id : JsString
  pub environment_id : Option JsString
  pub actor_id : JsString
  pub actor_email : JsString
  pub action : JsString
  pub resource_type : JsString
  pub resource_key : JsString
  pub previous_value : Option AuditValue
  pub new_value : Option AuditValue
  pub created_at : ℕ

pub record SnapshotRow : Type 0 where
  pub tenant_id : JsString
  pub environment_id : JsString
  pub version : ℕ
  pub server_payload : RulesetSnapshot
  pub client_payload : RulesetSnapshot
  pub etag : JsString
  pub published_by : JsString

pub record Database : Type 0 where
  pub tenants : List Tenant
  pub environments : List Environment
  pub segments : List SegmentRecord
  pub flags : List FlagRecord
  pub configs : List FlagConfig
  pub api_keys : List ApiKey
  pub audit_log : List AuditRow
  pub snapshots : List SnapshotRow

-- What the code of a route can throw.
pub data Failure : Type 0 where
  -- 23505 and 23503
  unique_violation foreign_key_violation : Failure
  environment_not_found : Failure
  invalid_ruleset : List Problem → Failure
  -- The compilation ran out of fuel, which it never does.
  never_compiled : Failure

pub data Outcome (A : Type 0) : Type 0 where
  done : A → Outcome A
  failed : Failure → Outcome A

-- Code that reads and changes the database and may throw; a statement outside a transaction that
-- came before the throw has had its effect.
abbrev pub Action : Type 0 → Type 0
Action A = Database → Outcome A × Database

abbrev pub pure : {A : Type 0} → A → Action A
pure a db = (done a, db)

abbrev pub throw : {A : Type 0} → Failure → Action A
throw e db = (failed e, db)

abbrev pub gets : {A : Type 0} → (Database → A) → Action A
gets f db = (done (f db), db)

abbrev pub continue : {A B : Type 0} → Outcome A → (A → Action B) → Action B
continue (done a) f db = f a db
continue (failed e) f db = (failed e, db)

infixl 5 ◌>>=◌ ◌>>◌
abbrev pub ◌>>=◌ : {A B : Type 0} → Action A → (A → Action B) → Action B
◌>>=◌ m f db = let (r, db') = m db in continue r f db'

abbrev pub ◌>>◌ : {B : Type 0} → Action (Unit {0}) → Action B → Action B
m >> n = m >>= λ _. n

-- try … catch: what was thrown, as a value.
abbrev pub attempt : {A : Type 0} → Action A → Action (Outcome A)
attempt m db = let (r, db') = m db in (done r, db')

abbrev pub commit : {A : Type 0} → (before : Database) → Outcome A × Database → Outcome A × Database
commit before (done a, after) = (done a, after)
commit before (failed e, after) = (failed e, before)

-- withTransaction(pool, fn): a throw rolls back, and goes on.
unfoldable pub with_transaction : {A : Type 0} → Action A → Action A
with_transaction m db = commit db (m db)
