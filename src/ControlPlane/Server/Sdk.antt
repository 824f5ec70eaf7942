-- ===== src/ControlPlane/Server/Sdk.antt =====
-- apps/control-plane/src/server.ts: the routes for SDKs, and the key that they require.
use flagship_platform.Shared.{
  ℕ, Bool, false, Option, none, some, List, [], ◌∷◌, if◌then◌else◌, length, ltb,
}
use flagship_platform.Shared.Int.{pos}
use flagship_platform.Js.Text.{JsString, js, str_eq}
use flagship_platform.Js.Value.{JsValue, Items, nil, cons}
use flagship_platform.ControlPlane.Batch.{AuthenticatedKey, validate_batch}
use flagship_platform.ControlPlane.Writer.{Writer, enqueue}
use flagship_platform.ControlPlane.Database.{Action, pure, gets, ◌>>=◌, ◌>>◌}
use flagship_platform.ControlPlane.Repository.Reads.{
  LatestSnapshot, authenticate_key, latest_snapshot,
}
use flagship_platform.ControlPlane.Repository.Writes.{touch_key_usage}
use flagship_platform.ControlPlane.Server.{
  Reply, reply, refuse, Settings, Supply, bearer, too_large, saturated, tally, payload_body,
  no_body,
}

-- The update of the key's usage is not awaited; here it is immediate.
unfoldable pub touched : (now : ℕ) → Option AuthenticatedKey → Action (Option AuthenticatedKey)
touched now none = pure none
touched now (some scope) = do touch_key_usage now scope.api_key_id; pure (some scope)

unfoldable pub require_sdk_key :
    Settings → Supply → (authorization : Option JsString) → Action (Option AuthenticatedKey)
require_sdk_key settings supply authorization = elim (bearer authorization) [
  | none ↦ pure none
  | some plaintext ↦ do
    scope ← gets (λ db. authenticate_key settings.engine db plaintext)
    touched supply.now scope
]

-- request.headers['if-none-match'] === etag
unfoldable pub is_held_by : (if_none_match : Option JsString) → (etag : JsString) → Bool
is_held_by none etag = false
is_held_by (some held) etag = str_eq held etag

-- What is sent for a snapshot that was found, or for none.
unfoldable pub snapshot_reply :
    Settings → (if_none_match : Option JsString) → Option LatestSnapshot → Reply
snapshot_reply settings if_none_match none =
    refuse 404 (js "no ruleset published for this environment")
snapshot_reply settings if_none_match (some snapshot) =
    let is_held = is_held_by if_none_match snapshot.etag in
    record {
      status = if is_held then 304 else 200;
      headers =
          (js "ETag", snapshot.etag)
          ∷ (js "X-Flagship-Version", settings.engine.string_of snapshot.version)
          ∷ (js "Cache-Control", js "no-cache, must-revalidate")
          ∷ [];
      body = if is_held then no_body else payload_body snapshot.payload;
      pushes = [];
    }

unfoldable pub serve_snapshot :
    Settings → (if_none_match : Option JsString) → Option AuthenticatedKey → Action Reply
serve_snapshot settings if_none_match none = pure (refuse 401 (js "invalid or missing SDK key"))
serve_snapshot settings if_none_match (some scope) = gets (λ db.
    snapshot_reply settings if_none_match (latest_snapshot db scope.environment_id scope.kind))

-- GET /sdk/v1/snapshot
unfoldable pub get_snapshot :
    Settings → Supply → (authorization if_none_match : Option JsString) → Action Reply
get_snapshot settings supply authorization if_none_match = do
  scope ← require_sdk_key settings supply authorization
  serve_snapshot settings if_none_match scope

abbrev pub max_batch_size : ℕ
max_batch_size = 1000

unfoldable pub list_of : Items → List JsValue
list_of nil = []
list_of (cons item items) = item ∷ list_of items

-- The batch, once it is known to be an array of a permitted size.
unfoldable pub ingest :
    Settings → Supply → AuthenticatedKey → List JsValue → Writer → Reply × Writer
ingest settings supply scope events writer =
    let outcome = validate_batch settings.dates scope (pos supply.now) events in
    let (writer', is_accepted) = enqueue settings.max_in_flight_rows writer outcome.rows in
    if is_accepted
    then (reply 202 (tally (length outcome.rows) (length outcome.rejected)), writer')
    else (reply 429 saturated, writer')

-- What the batch is answered with: `body.events` is any value.
unfoldable pub ingest_events :
    Settings → Supply → AuthenticatedKey → JsValue → Writer → Reply × Writer
ingest_events settings supply scope (JsValue.array items) writer =
    if ltb max_batch_size (length (list_of items))
    then (reply 413 (too_large max_batch_size), writer)
    else ingest settings supply scope (list_of items) writer
ingest_events settings supply scope events writer =
    (refuse 400 (js "events must be an array"), writer)

unfoldable pub ingest_scoped :
    Settings → Supply → JsValue → Option Writer → Option AuthenticatedKey → Reply × Option Writer
ingest_scoped settings supply events writer none =
    (refuse 401 (js "invalid or missing SDK key"), writer)
ingest_scoped settings supply events none (some scope) =
    (refuse 503 (js "exposure ingest is not configured"), none)
ingest_scoped settings supply events (some writer) (some scope) =
    let (answer, writer') = ingest_events settings supply scope events writer in
    (answer, some writer')

-- POST /sdk/v1/exposures
unfoldable pub post_exposures :
    Settings
    → Supply
    → (authorization : Option JsString) → (events : JsValue) → Option Writer
    → Action (Reply × Option Writer)
post_exposures settings supply authorization events writer = do
  scope ← require_sdk_key settings supply authorization
  pure (ingest_scoped settings supply events writer scope)
