-- ===== src/ControlPlane/Server/Requests.antt =====
-- What a request of any kind does to the database: the statements of the admin routes and, for a key
-- of an SDK, the update of its usage.
use flagship_platform.Shared.{◌≡◌, refl, sym, subst, ℕ, Option, none, some, Option-cases, inl, inr}
use flagship_platform.Js.Text.{JsString}
use flagship_platform.ControlPlane.Database.{Database, Outcome, done, failed}
use flagship_platform.ControlPlane.Database.Effects.{Within, pure-Within, gets-Within, bind-Within}
use flagship_platform.ControlPlane.Batch.{AuthenticatedKey}
use flagship_platform.ControlPlane.Repository.Writes.{touch_key_usage}
use flagship_platform.ControlPlane.Server.{Reply, Settings, Supply, bearer, respond}
use flagship_platform.ControlPlane.Server.Routes.{
  Request, health, snapshot_request, exposures_request, admin_request, Site, serve, after_exposures,
  Reach, started, served,
}
use flagship_platform.ControlPlane.Writer.{Writer}
use flagship_platform.Js.Value.{JsValue}
use flagship_platform.ControlPlane.Server.Sdk.{
  touched, require_sdk_key, get_snapshot, serve_snapshot, post_exposures,
}
use flagship_platform.ControlPlane.Server.Effects.{Respects, finish-database, serve-admin_route}
use flagship_platform.ControlPlane.Server.Effects.Handlers.{admin_route-Within}

module _ {R : Database → Database → Type 0} (settings : Settings)
    (respects : Respects R (λ _. Unit) settings)
    (key_usage : (now : ℕ) (id : JsString) → Within R (touch_key_usage now id)) where
  touched-Within : (now : ℕ) (scope : Option AuthenticatedKey) → Within R (touched now scope)
  unfolding touched
  touched-Within now none = pure-Within respects.preorder _
  touched-Within now (some scope) =
      bind-Within respects.preorder _ _ (key_usage now scope.api_key_id)
        (λ _. pure-Within respects.preorder _)

  require_sdk_key-Within :
      (supply : Supply) (authorization : Option JsString)
      → Within R (require_sdk_key settings supply authorization)
  unfolding require_sdk_key
  require_sdk_key-Within supply authorization = elim (Option-cases (bearer authorization)) [
    | inl missing ↦ rw (require_sdk_key, missing) (pure-Within respects.preorder _)
    | inr (plaintext, given) ↦
        rw (require_sdk_key, given)
          (bind-Within respects.preorder _ _ (gets-Within respects.preorder _)
            (touched-Within supply.now))
  ]

  serve_snapshot-Within :
      (if_none_match : Option JsString) (scope : Option AuthenticatedKey)
      → Within R (serve_snapshot settings if_none_match scope)
  unfolding serve_snapshot
  serve_snapshot-Within if_none_match none = pure-Within respects.preorder _
  serve_snapshot-Within if_none_match (some scope) = gets-Within respects.preorder _

  after_exposures-database :
      (site : Site) (result : Outcome (Reply × Option Writer) × Database)
      → (after_exposures site result).1.database ≡ result.1
  after_exposures-database site (done (answer, writer), db) = refl
  after_exposures-database site (failed e, db) = refl

  get_snapshot-Within :
      (supply : Supply) (authorization if_none_match : Option JsString)
      → Within R (get_snapshot settings supply authorization if_none_match)
  unfolding get_snapshot
  get_snapshot-Within supply authorization if_none_match =
      bind-Within respects.preorder _ _ (require_sdk_key-Within supply authorization)
        (serve_snapshot-Within if_none_match)

  post_exposures-Within :
      (supply : Supply) (authorization : Option JsString) (events : JsValue)
      (writer : Option Writer)
      → Within R (post_exposures settings supply authorization events writer)
  unfolding post_exposures
  post_exposures-Within supply authorization events writer =
      bind-Within respects.preorder _ _ (require_sdk_key-Within supply authorization)
        (λ scope. pure-Within respects.preorder _)

  pub serve-related :
      (supply : Supply) (request : Request) (site : Site)
      → R site.database (serve settings supply request site).1.database
  unfolding serve respond
  serve-related supply health site = respects.preorder.same site.database
  serve-related supply (snapshot_request authorization if_none_match) site =
      subst (R site.database)
        (sym (
          finish-database (get_snapshot settings supply authorization if_none_match site.database)))
        ((get_snapshot-Within supply authorization if_none_match).related site.database)
  serve-related supply (exposures_request authorization events) site =
      subst (R site.database)
        (sym (
          after_exposures-database site
            (post_exposures settings supply authorization events site.writer site.database)))
        ((post_exposures-Within supply authorization events site.writer).related site.database)
  serve-related supply (admin_request authorization request) site =
      subst (R site.database) (sym (serve-admin_route settings supply authorization request site)) (
        (admin_route-Within settings supply respects authorization request (λ t named. tt)).related
          site.database)

  pub Reach-related :
      (start site : Site) → Reach settings start site → R start.database site.database
  Reach-related start _ started = respects.preorder.same start.database
  Reach-related start _ (served {site} supply request before) =
      respects.preorder.trans (Reach-related start site before) (serve-related supply request site)
