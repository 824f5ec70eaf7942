-- ===== src/ControlPlane/Server.antt =====
-- apps/control-plane/src/server.ts: what its routes have in common. A request comes with its fields
-- of their declared types, `none` for one that is absent; a reply is the status, the headers that
-- the handler sets and the body, with what the handler sends to the data plane.
pub mod Sdk
pub mod Admin
pub mod Routes
pub mod Effects
pub mod Isolation
pub mod Snapshots
pub mod Refusals
pub mod FlagKeys
pub mod Requests
pub mod Ingest
mod Examples
use flagship_platform.Shared.{
  ℕ, Bool, true, false, ◌&&◌, Option, none, some, List, [], ◌∷◌, ◌++◌, if◌then◌else◌, drop,
}
use flagship_platform.Js.Text.{JsString, js, str_eq, starts_with}
use flagship_platform.Core.Types.{RulesetSnapshot}
use flagship_platform.Core.Visibility.{KeyKind}
use flagship_platform.ControlPlane.Ruleset.{Problem}
use flagship_platform.ControlPlane.Database.{
  Tenant, AuditRow, Database, Outcome, done, failed, Action, pure,
}
use flagship_platform.ControlPlane.Batch.{AuthenticatedKey, Dates}
use flagship_platform.ControlPlane.Repository.{Engine}
use flagship_platform.ControlPlane.Repository.Reads.{
  FlagSummary, FlagDetail, EnvironmentSummary, SegmentSummary,
}

-- The message to the data plane.
pub record Push : Type 0 where
  pub environment : JsString
  pub version : ℕ
  pub payload : RulesetSnapshot

pub data Body : Type 0 where
  no_body : Body
  healthy : Body
  error_body : JsString → Body
  problems_body : List Problem → Body
  too_large : (max_batch_size : ℕ) → Body
  saturated : Body
  tally : (accepted rejected : ℕ) → Body
  payload_body : RulesetSnapshot → Body
  flags_body : List FlagSummary → Body
  flag_body : FlagDetail → Body
  published_body : (version : ℕ) → (etag : JsString) → (pushed : Bool) → Body
  created_key_body : (id plaintext : JsString) → KeyKind → (prefix : JsString) → Body
  created_flag_body : (key : JsString) → Body
  tenants_body : List Tenant → Body
  environments_body : List EnvironmentSummary → Body
  segments_body : List SegmentSummary → Body
  audit_body : List AuditRow → Body

pub record Reply : Type 0 where
  pub status : ℕ
  pub headers : List (JsString × JsString)
  pub body : Body
  pub pushes : List Push

-- reply.code(status).send(body)
abbrev pub reply : (status : ℕ) → Body → Reply
reply status body = record { status = status; headers = []; body = body; pushes = [] }

abbrev pub refuse : (status : ℕ) → JsString → Reply
refuse status message = reply status (error_body message)

-- What stays the same from one request to the next: the services, and `ServerOptions` with the
-- environment's variables.
pub record Settings : Type 0 where
  pub engine : Engine
  pub dates : Dates
  pub admin_token : Option JsString
  pub has_data_plane : Bool
  pub max_in_flight_rows : ℕ

-- What one request draws: the time, also as an ISO text, the random id, salt and secret, and whether
-- the data plane answers a push with a success.
pub record Supply : Type 0 where
  pub now : ℕ
  pub served_at : JsString
  pub id : JsString
  pub salt : JsString
  pub secret : JsString
  pub push_succeeds : Bool

-- A text that passes `!text`.
unfoldable pub present : Option JsString → Option JsString
present none = none
present (some []) = none
present (some (c ∷ cs)) = some (c ∷ cs)

abbrev pub both : {A B : Type 0} → Option A → Option B → Option (A × B)
both none b = none
both (some a) none = none
both (some a) (some b) = some (a, b)

-- The text behind "Bearer ".
unfoldable pub bearer : (authorization : Option JsString) → Option JsString
bearer none = none
bearer (some header) = if starts_with header (js "Bearer ") then some (drop 7 header) else none

unfoldable pub require_admin : (admin_token authorization : Option JsString) → Bool
require_admin admin_token none = false
require_admin admin_token (some header) = elim (present admin_token) [
  | none ↦ false
  | some expected ↦ str_eq header (js "Bearer " ++ expected)
]

abbrev pub finish : Outcome Reply × Database → Reply × Database
finish (done r, db) = (r, db)
finish (failed e, db) = (reply 500 no_body, db)

-- What Fastify makes of a handler: an uncaught throw is answered with 500.
unfoldable pub respond : Action Reply → Database → Reply × Database
respond handler db = finish (handler db)
