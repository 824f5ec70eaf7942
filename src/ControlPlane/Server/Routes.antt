-- ===== src/ControlPlane/Server/Routes.antt =====
-- apps/control-plane/src/server.ts: `buildServer`, the routes together, and what a sequence of
-- requests does to the database and to the exposure writer. A request is one step.
use flagship_platform.Shared.{Bool, Option, List, if◌then◌else◌}
use flagship_platform.Js.Text.{JsString, js}
use flagship_platform.Js.Value.{JsValue}
use flagship_platform.Core.Types.{Variation, TargetingRule}
use flagship_platform.ControlPlane.Writer.{Writer}
use flagship_platform.ControlPlane.Database.{Database, Outcome, done, failed, Action, pure}
use flagship_platform.ControlPlane.Server.{
  Reply, reply, refuse, Settings, Supply, require_admin, respond, no_body, healthy,
}
use flagship_platform.ControlPlane.Server.Sdk.{get_snapshot, post_exposures}
use flagship_platform.ControlPlane.Server.Admin.{
  get_flags, post_publish, post_api_keys, get_tenants, get_environments, get_segments, get_audit,
}
use flagship_platform.ControlPlane.Server.Admin.Flags.{get_flag_route, post_flags, patch_flag}

-- The parts of a request, of the types that the routes declare for them; no schema enforces these, and
-- requests with other values are left out.
pub data AdminRequest : Type 0 where
  list_flags_request : (tenant_id environment_id : Option JsString) → AdminRequest
  publish_request :
      (tenant_id environment_id environment_key actor_email : Option JsString) → AdminRequest
  create_key_request : (tenant_id environment_id name kind : Option JsString) → AdminRequest
  list_tenants_request : AdminRequest
  list_environments_request : (tenant_id : Option JsString) → AdminRequest
  list_segments_request : (tenant_id : Option JsString) → AdminRequest
  read_flag_request : (key : JsString) → (tenant_id environment_id : Option JsString) → AdminRequest
  create_flag_request :
      (tenant_id key description : Option JsString)
      → Option (List Variation)
      → (default_key off_key : Option JsString) → AdminRequest
  patch_flag_request :
      (key : JsString)
      → (tenant_id environment_id : Option JsString) → (enabled : Option Bool)
      → (default_key off_key : Option JsString) → (rules : Option (List TargetingRule))
      → AdminRequest
  audit_request : (tenant_id resource_key : Option JsString) → AdminRequest

pub data Request : Type 0 where
  health : Request
  snapshot_request : (authorization if_none_match : Option JsString) → Request
  exposures_request : (authorization : Option JsString) → (events : JsValue) → Request
  admin_request : (authorization : Option JsString) → AdminRequest → Request

module _ (settings : Settings) (supply : Supply) where
  unfoldable pub admin_handler : AdminRequest → Action Reply
  admin_handler (list_flags_request t e) = get_flags settings supply t e
  admin_handler (publish_request t e k actor) = post_publish settings supply t e k actor
  admin_handler (create_key_request t e name kind) = post_api_keys settings supply t e name kind
  admin_handler list_tenants_request = get_tenants settings supply
  admin_handler (list_environments_request t) = get_environments settings supply t
  admin_handler (list_segments_request t) = get_segments settings supply t
  admin_handler (read_flag_request key t e) = get_flag_route settings supply key t e
  admin_handler (create_flag_request t key description variations default_key off_key) =
      post_flags settings supply t key description variations default_key off_key
  admin_handler (patch_flag_request key t e enabled default_key off_key rules) =
      patch_flag settings supply key t e enabled default_key off_key rules
  admin_handler (audit_request t resource_key) = get_audit settings supply t resource_key

  -- The first line of each admin route.
  unfoldable pub admin_route : (authorization : Option JsString) → AdminRequest → Action Reply
  admin_route authorization request =
      if require_admin settings.admin_token authorization
      then admin_handler request
      else pure (refuse 401 (js "unauthorized"))

-- What the routes share: the database, and the writer of `ServerOptions`.
pub record Site : Type 0 where
  pub database : Database
  pub writer : Option Writer

abbrev pub at_site : Site → Reply × Database → Reply × Site
at_site site (answer, database) = (answer, record site { database = database })

abbrev pub after_exposures : Site → Outcome (Reply × Option Writer) × Database → Reply × Site
after_exposures site (done (answer, writer), database) =
    (answer, record { database = database; writer = writer })
after_exposures site (failed e, database) = (reply 500 no_body, record site { database = database })

module _ (settings : Settings) where
  unfoldable pub serve : Supply → Request → Site → Reply × Site
  serve supply health site = (reply 200 healthy, site)
  serve supply (snapshot_request authorization if_none_match) site =
      at_site site
        (respond (get_snapshot settings supply authorization if_none_match) site.database)
  serve supply (exposures_request authorization events) site =
      after_exposures site
        (post_exposures settings supply authorization events site.writer site.database)
  serve supply (admin_request authorization request) site =
      at_site site (respond (admin_route settings supply authorization request) site.database)

  -- The sites that requests, one after the other, lead to.
  pub data Reach (start : Site) : Site → Type 0 where
    started : Reach start start
    served :
        {site : Site} (supply : Supply) (request : Request)
        → Reach start site
        → Reach start (serve supply request site).1
