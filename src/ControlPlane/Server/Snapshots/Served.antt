-- ===== src/ControlPlane/Server/Snapshots/Served.antt =====
-- What SDKs are served over a run of the server.
use flagship_platform.Shared.{
  ◌≡◌, refl, sym, ap, subst, ◌∙◌, ◌+◌, ◌≤◌, ◌<◌, true, false, Option, none, some, List, [], ◌∷◌,
  ◌++◌, inl, inr, arith, In, and-true, any,
}
use flagship_platform.Js.Text.{JsString, js, starts_with, str_eq_iff}
use flagship_platform.Core.Types.{RulesetSnapshot}
use flagship_platform.Core.Visibility.{KeyKind, find_server_only_leaks}
use flagship_platform.ControlPlane.Ruleset.Compile.{CompiledRuleset, compiled, compile_ruleset}
use flagship_platform.ControlPlane.Batch.{AuthenticatedKey}
use flagship_platform.ControlPlane.Database.{Database, Environment, SnapshotRow, done}
use flagship_platform.ControlPlane.Repository.{Engine, find}
use flagship_platform.ControlPlane.Repository.Reads.{
  LatestSnapshot, payload_for, latest_snapshot, authenticate_key,
}
use flagship_platform.ControlPlane.Repository.Newest.{
  served_as, latest_snapshot-row, latest_snapshot-append, latest_snapshot-insert,
}
use flagship_platform.ControlPlane.Repository.Writes.{touch_key_usage}
use flagship_platform.ControlPlane.Repository.Publish.{
  PublishOptions, PublishResult, is_environment, bumped, version_taken, snapshot_row,
  ruleset_inputs, publish_ruleset,
}
use flagship_platform.ControlPlane.Repository.Publish.Outcomes.{IsPublished, publish_ruleset_goes}
use flagship_platform.ControlPlane.Server.{Settings, Supply, bearer, payload_body, respond}
use flagship_platform.ControlPlane.Server.Sdk.{
  touched, require_sdk_key, snapshot_reply, serve_snapshot, get_snapshot,
}
use flagship_platform.ControlPlane.Server.Routes.{Site, Reach, serve, snapshot_request}
use flagship_platform.ControlPlane.Server.Snapshots.{IsSound}
use flagship_platform.ControlPlane.Repository.Rows.{In-find}
use flagship_platform.ControlPlane.Server.Snapshots.Steps.{Reach-Extends}

pub empty-IsSound : (db : Database) → db.snapshots ≡ [] → IsSound db
empty-IsSound db empty = record {
  clean = λ row m. absurd (subst (In row) empty m);
  bounded = λ row m. absurd (subst (In row) empty m);
}

-- From a database without snapshots, whatever requests follow, every stored client payload is without
-- leaks, and no snapshot has a version that its environment has not reached.
pub Reach-IsSound :
    (settings : Settings) (start site : Site)
    → start.database.snapshots ≡ []
    → Reach settings start site
    → IsSound site.database
Reach-IsSound settings start site empty reach =
    (Reach-Extends settings start site reach).sound (empty-IsSound start.database empty)

-- Once an environment has a snapshot it always has one, and the version that a key of either kind is
-- served never goes back, whatever requests follow.
pub Reach-version_monotone :
    (settings : Settings) (start site : Site) (environment_id : JsString) (kind : KeyKind)
    (s : LatestSnapshot)
    → Reach settings start site
    → latest_snapshot start.database environment_id kind ≡ some s
    → (later : LatestSnapshot) × (latest_snapshot site.database environment_id kind ≡ some later)
      × (s.version ≤ later.version)
Reach-version_monotone settings start site environment_id kind s reach found =
    let (rows, grown) = (Reach-Extends settings start site reach).appended in
    latest_snapshot-append environment_id kind start.database site.database rows s grown found

-- What the route answers a key that is authenticated.
pub get_snapshot_reply :
    (settings : Settings) (supply : Supply) (plaintext : JsString) (if_none_match : Option JsString)
    (scope : AuthenticatedKey) (site : Site)
    → authenticate_key settings.engine site.database plaintext ≡ some scope
    → (serve settings supply
        (snapshot_request (some (js "Bearer " ++ plaintext)) if_none_match)
        site).0
      ≡ snapshot_reply settings if_none_match
          (latest_snapshot site.database scope.environment_id scope.kind)
unfolding serve respond get_snapshot require_sdk_key bearer starts_with touched touch_key_usage
    serve_snapshot latest_snapshot
get_snapshot_reply settings supply plaintext if_none_match scope site found = rw found refl

body-found :
    (settings : Settings) (if_none_match : Option JsString) (o : Option LatestSnapshot)
    (payload : RulesetSnapshot)
    → (snapshot_reply settings if_none_match o).body ≡ payload_body payload
    → (s : LatestSnapshot) × (o ≡ some s) × (s.payload ≡ payload)
unfolding snapshot_reply
body-found settings if_none_match none payload h = absurd (ground arith)
body-found settings if_none_match (some s) payload h = (s, refl, ground arith)

-- From a database without snapshots, whatever requests follow: when a client key that is
-- authenticated asks for the snapshot and is answered with a payload, no leak of server-only rules is
-- found in the payload.
pub client_snapshot-no_leaks :
    (settings : Settings) (start site : Site) (supply : Supply) (plaintext : JsString)
    (if_none_match : Option JsString) (scope : AuthenticatedKey) (payload : RulesetSnapshot)
    → start.database.snapshots ≡ []
    → Reach settings start site
    → authenticate_key settings.engine site.database plaintext ≡ some scope
    → scope.kind ≡ KeyKind.client
    → (serve settings supply
        (snapshot_request (some (js "Bearer " ++ plaintext)) if_none_match)
        site).0.body
      ≡ payload_body payload
    → find_server_only_leaks payload ≡ []
unfolding payload_for served_as
client_snapshot-no_leaks settings start site supply plaintext if_none_match scope payload empty
      reach authenticated is_client answered =
    let told =
      get_snapshot_reply settings supply plaintext if_none_match scope site authenticated in
    let (s, found, sent) =
      body-found settings if_none_match _ payload (sym (ap (λ r. r.body) told) ∙ answered) in
    let (row, there, _, same) =
      latest_snapshot-row scope.environment_id scope.kind site.database s found in
    let client : payload ≡ row.client_payload =
      sym sent ∙ (ap (λ t. t.payload) same ∙ ap (λ k. payload_for k row) is_client) in
    ap find_server_only_leaks client
    ∙ (Reach-IsSound settings start site empty reach).clean row there

-- The ids of environments are a primary key.
abbrev pub IsKeyed : Database → Type 0
IsKeyed db = (d e : Environment) → In d db.environments → In e db.environments → d.id ≡ e.id → d ≡ e

-- No snapshot of the environment has reached the next version.
all_older :
    (db : Database) (e : Environment)
    → IsSound db
    → IsKeyed db
    → In e db.environments
    → (r : SnapshotRow) → In r db.snapshots
    → r.environment_id ≡ e.id
    → r.version < e.version + 1
all_older db e sound keyed listed r there mine =
    let (d, known, same, reached) = sound.bounded r there in
    let it : d ≡ e = keyed d e known listed (same ∙ mine) in
    let bound : r.version ≤ e.version = subst (λ x. r.version ≤ x.version) it reached in omega arith

version_taken-false :
    (snapshots : List SnapshotRow) (row : SnapshotRow)
    → ((r : SnapshotRow)
        → In r snapshots
        → r.environment_id ≡ row.environment_id
        → r.version < row.version)
    → version_taken snapshots row ≡ false
unfolding version_taken any
version_taken-false [] row older = refl
version_taken-false (r ∷ rs) row older = ground (
  arith,
  version_taken-false rs row (λ r' m. older r' (inr m)),
  older r (inl refl),
  str_eq_iff r.environment_id row.environment_id,
)

module _ (engine : Engine) (served_at : JsString) (options : PublishOptions) where
  environment-id :
      (e : Environment) → is_environment options e ≡ true → e.id ≡ options.environment_id
  unfolding is_environment
  environment-id e hit = (str_eq_iff _ _).0 (and-true hit).0

  published_latest :
      (db db' : Database) (p : PublishResult) (kind : KeyKind)
      → IsSound db
      → IsKeyed db
      → IsPublished engine served_at options db p db'
      → latest_snapshot db' options.environment_id kind
        ≡ some (
            served_as options.environment_id kind
              (snapshot_row engine options p.version p.compiled_ruleset))
  unfolding snapshot_row bumped
  published_latest db db' p kind sound keyed h =
      let (listed, hit) = In-find (is_environment options) db.environments h.environment h.found in
      let id_of : h.environment.id ≡ options.environment_id = environment-id h.environment hit in
      latest_snapshot-insert options.environment_id kind db db'
        (snapshot_row engine options p.version p.compiled_ruleset) (ap (λ d. d.snapshots) h.stored)
        refl
        (λ r there mine.
          subst (λ n. r.version < n) (sym h.next)
            (all_older db h.environment sound keyed listed r there (mine ∙ sym id_of)))

  -- When the snapshots are sound, the ids of environments are unique, the tenant has the environment
  -- and `compileRuleset` accepts the rows for the next version, publishing succeeds, with that
  -- version, and the environment's keys are served it at once: server keys the rows, client keys the
  -- filtered payload.
  pub publish_ruleset-serves :
      (db : Database) (e : Environment) (c : CompiledRuleset) (kind : KeyKind)
      → IsSound db
      → IsKeyed db
      → find (is_environment options) db.environments ≡ some e
      → compile_ruleset
          (ruleset_inputs engine options (e.version + 1) served_at (bumped options db))
        ≡ some (compiled c)
      → (p : PublishResult) × ((publish_ruleset engine served_at options db).0 ≡ done p)
        × (p.version ≡ e.version + 1)
        × (latest_snapshot
              (publish_ruleset engine served_at options db).1
              options.environment_id
              kind
            ≡ some (
                served_as options.environment_id kind
                  (snapshot_row engine options (e.version + 1) c)))
  unfolding snapshot_row
  publish_ruleset-serves db e c kind sound keyed found accepted =
      let (listed, hit) = In-find (is_environment options) db.environments e found in
      let id_of : e.id ≡ options.environment_id = environment-id e hit in
      let free =
        version_taken-false db.snapshots (snapshot_row engine options (e.version + 1) c)
          (λ r there mine. all_older db e sound keyed listed r there (mine ∙ sym id_of)) in
      let (db', goes, published) =
        publish_ruleset_goes engine served_at options db e c found accepted free in
      (
        _,
        ap (λ r. r.0) goes,
        refl,
        ap (λ r. latest_snapshot r.1 options.environment_id kind) goes
            ∙ published_latest db db' _ kind sound keyed published,
      )
