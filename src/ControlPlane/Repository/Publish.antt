-- ===== src/ControlPlane/Repository/Publish.antt =====
-- apps/control-plane/src/repository.ts: `publishRuleset`. Its BEGIN, COMMIT and ROLLBACK are those
-- of `withTransaction`.
pub mod Outcomes
use flagship_platform.Shared.{
  ℕ, ◌+◌, Bool, ◌&&◌, Option, none, some, [], ◌∷◌, ◌++◌, if◌then◌else◌, any, List, take, ◌==◌,
}
use flagship_platform.Shared.Int.{pos}
use flagship_platform.Js.Text.{JsString, str_eq}
use flagship_platform.Core.Types.{RulesetSnapshot}
use flagship_platform.ControlPlane.Keys.{hash_api_key}
use flagship_platform.ControlPlane.Ruleset.Compile.{
  CompiledRuleset, Compiled, refused, compiled, compile_ruleset,
}
use flagship_platform.ControlPlane.Database.{
  Environment, SnapshotRow, Database, unique_violation, environment_not_found, never_compiled,
  invalid_ruleset, done, failed, Action, pure, throw, gets, ◌>>=◌, ◌>>◌, with_transaction,
}
use flagship_platform.ControlPlane.Repository.{Engine, update_where, find}
use flagship_platform.ControlPlane.Repository.Reads.{load_flags, load_segments}

pub record PublishOptions : Type 0 where
  pub tenant_id : JsString
  pub environment_id : JsString
  pub environment_key : JsString
  pub published_by : JsString

pub record PublishResult : Type 0 where
  pub version : ℕ
  pub etag : JsString
  pub compiled_ruleset : CompiledRuleset

-- WHERE id = $1 AND tenant_id = $2
unfoldable pub is_environment : PublishOptions → Environment → Bool
is_environment options e =
    str_eq e.id options.environment_id && str_eq e.tenant_id options.tenant_id

-- UPDATE environments SET version = version + 1
unfoldable pub bumped : PublishOptions → Database → Database
bumped options db = record db {
  environments =
      update_where (is_environment options) (λ e. record e { version = e.version + 1 })
        db.environments;
}

-- The update, RETURNING version.
unfoldable pub bump_version : PublishOptions → Action ℕ
bump_version options db = elim (find (is_environment options) db.environments) [
  | none ↦ (failed environment_not_found, db)
  | some e ↦ (done (e.version + 1), bumped options db)
]

-- UNIQUE (environment_id, version)
unfoldable pub version_taken : List SnapshotRow → SnapshotRow → Bool
version_taken snapshots row =
    any (λ other. str_eq other.environment_id row.environment_id && (other.version == row.version))
      snapshots

unfoldable pub insert_snapshot : SnapshotRow → Action (Unit {0})
insert_snapshot row db =
    if version_taken db.snapshots row
    then (failed unique_violation, db)
    else (done tt, record db { snapshots = db.snapshots ++ row ∷ [] })

module _ (engine : Engine) where
  -- The argument of `compileRuleset`, with the rows that the transaction reads.
  unfoldable pub ruleset_inputs :
      PublishOptions → (version : ℕ) → (served_at : JsString) → Database → RulesetSnapshot
  ruleset_inputs options version served_at db = record {
    environment_key = options.environment_key;
    version = pos version;
    flags = load_flags engine db options.tenant_id options.environment_id;
    segments = load_segments engine db options.tenant_id;
    served_at = served_at;
  }

  unfoldable pub etag_of : RulesetSnapshot → JsString
  etag_of server = take 32 (hash_api_key engine.crypto (engine.stringify server))

  unfoldable pub snapshot_row : PublishOptions → (version : ℕ) → CompiledRuleset → SnapshotRow
  snapshot_row options version c = record {
    tenant_id = options.tenant_id;
    environment_id = options.environment_id;
    version = version;
    server_payload = c.server;
    client_payload = c.client;
    etag = etag_of c.server;
    published_by = options.published_by;
  }

  -- What follows `compileRuleset`, which throws when it refuses.
  unfoldable pub store : PublishOptions → (version : ℕ) → Option Compiled → Action PublishResult
  store options version none = throw never_compiled
  store options version (some (refused problems)) = throw (invalid_ruleset problems)
  store options version (some (compiled c)) = do
    insert_snapshot (snapshot_row options version c)
    pure (record { version = version; etag = etag_of c.server; compiled_ruleset = c })

  unfoldable pub publish_ruleset : (served_at : JsString) → PublishOptions → Action PublishResult
  publish_ruleset served_at options = with_transaction do
    version ← bump_version options
    inputs ← gets (ruleset_inputs options version served_at)
    store options version (compile_ruleset inputs)
