-- ===== src/ControlPlane/Server/Snapshots/Examples.antt =====
-- A run on the sample database: the ruleset is published and a client key asks for it.
use flagship_platform.Shared.{
  ◌≡◌, refl, ◌∙◌, ◌≤◌, false, Option, none, some, [], ◌∷◌, ◌++◌, sym, ap, any, filter, inl, inr,
  arith,
}
use flagship_platform.Shared.Int.{pos}
use flagship_platform.Js.Text.{JsString, js, str_eq, str_lt}
use flagship_platform.Core.Samples.{snapshot_of}
use flagship_platform.Core.Visibility.{KeyKind, find_server_only_leaks}
use flagship_platform.ControlPlane.Ruleset.Compile.{compiled, compile_ruleset}
use flagship_platform.ControlPlane.Ruleset.Examples.{published, rows-published}
use flagship_platform.ControlPlane.Keys.{key_prefix, verify_api_key, hash_api_key}
use flagship_platform.ControlPlane.Batch.{AuthenticatedKey}
use flagship_platform.ControlPlane.Database.{Database, done}
use flagship_platform.ControlPlane.Repository.{
  find, order_by, has_tenant, has_environment, update_where,
}
use flagship_platform.ControlPlane.Repository.Reads.{
  load_flags, load_segments, segments_of, flags_of, flag_row, joined, config_of, authenticate_key,
  first_verified, scope_of, LatestSnapshot, latest_snapshot, newest, payload_for,
}
use flagship_platform.ControlPlane.Repository.Newest.{served_as}
use flagship_platform.ControlPlane.Repository.Writes.{write_audit, has_environment_or_null}
use flagship_platform.ControlPlane.Repository.Publish.{
  PublishOptions, PublishResult, is_environment, bumped, version_taken, snapshot_row, etag_of,
  ruleset_inputs, publish_ruleset,
}
use flagship_platform.ControlPlane.Repository.Publish.Outcomes.{
  Publishes, publish_ruleset_goes, publish_ruleset-Publishes,
}
use flagship_platform.ControlPlane.Server.{require_admin, respond, present, payload_body}
use flagship_platform.ControlPlane.Server.Admin.{post_publish, publish_as, after_publish}
use flagship_platform.ControlPlane.Server.Sdk.{snapshot_reply, is_held_by}
use flagship_platform.ControlPlane.Server.Routes.{
  AdminRequest, publish_request, admin_request, snapshot_request, admin_handler, admin_route, Site,
  serve, Reach, started, served,
}
use flagship_platform.ControlPlane.Server.Snapshots.{IsSound}
use flagship_platform.ControlPlane.Server.Snapshots.Served.{
  Reach-IsSound, Reach-version_monotone, client_snapshot-no_leaks, publish_ruleset-serves,
  get_snapshot_reply, empty-IsSound, IsKeyed,
}
use flagship_platform.ControlPlane.Samples.{
  sample_engine, sample_database, sample_site, sample_settings, sample_supply, prod,
}

abbrev options : PublishOptions
options = record {
  tenant_id = js "t1";
  environment_id = js "e1";
  environment_key = js "prod";
  published_by = js "unknown";
}

prod_found : find (is_environment options) sample_database.environments ≡ some prod
unfolding find is_environment str_eq
prod_found = refl

inputs_rows :
    ruleset_inputs sample_engine options 3 (js "") (bumped options sample_database)
    ≡ snapshot_of (pos 3)
unfolding find str_eq ruleset_inputs bumped load_flags load_segments order_by segments_of flags_of
    filter flag_row str_lt joined config_of
inputs_rows = refl

inputs_accepted :
    compile_ruleset
      (ruleset_inputs sample_engine options 3 (js "") (bumped options sample_database))
    ≡ some (compiled published)
inputs_accepted = ap compile_ruleset inputs_rows ∙ rows-published

version_free :
    version_taken sample_database.snapshots (snapshot_row sample_engine options 3 published) ≡ false
unfolding version_taken any
version_free = refl

abbrev result : PublishResult
result = record {
  version = 3;
  etag = etag_of sample_engine published.server;
  compiled_ruleset = published;
}

abbrev published_database : Database
published_database = record (bumped options sample_database) {
  snapshots = snapshot_row sample_engine options 3 published ∷ [];
}

publish_run :
    publish_ruleset sample_engine (js "") options sample_database
    ≡ (done result, published_database)
publish_run =
    let (db', goes, is_published) =
      publish_ruleset_goes sample_engine (js "") options sample_database prod published prod_found
        inputs_accepted version_free in
    goes ∙ ap (λ d. (done result, d)) is_published.stored

abbrev admin : Option JsString
admin = some (js "Bearer secret")

abbrev publishing : AdminRequest
publishing = publish_request (some (js "t1")) (some (js "e1")) (some (js "prod")) none

abbrev published_site : Site
published_site =
    (serve sample_settings sample_supply (admin_request admin publishing) sample_site).1

published-Reach : Reach sample_settings sample_site published_site
published-Reach = served sample_supply (admin_request admin publishing) started

publish_ruleset-Publishes_example :
    Publishes sample_engine
      (js "")
      options
      sample_database
      (publish_ruleset sample_engine (js "") options sample_database)
publish_ruleset-Publishes_example =
    publish_ruleset-Publishes sample_engine (js "") options sample_database

abbrev scope : AuthenticatedKey
scope = record {
  tenant_id = js "t1";
  environment_id = js "e1";
  environment_key = js "prod";
  kind = KeyKind.client;
  api_key_id = js "k1";
}

authenticated :
    authenticate_key sample_engine published_site.database (js "fs_client_1234") ≡ some scope
unfolding serve respond admin_route require_admin admin_handler post_publish publish_as
    after_publish present str_eq write_audit has_tenant any has_environment_or_null has_environment
    bumped find update_where is_environment authenticate_key first_verified scope_of key_prefix
    filter verify_api_key hash_api_key
authenticated = rw publish_run refl

latest_published :
    latest_snapshot published_site.database (js "e1") KeyKind.client
    ≡ some (served_as (js "e1") KeyKind.client (snapshot_row sample_engine options 3 published))
unfolding serve respond admin_route require_admin admin_handler post_publish publish_as
    after_publish present str_eq write_audit has_tenant any has_environment_or_null has_environment
    bumped find update_where is_environment latest_snapshot filter newest snapshot_row served_as
    payload_for
latest_published = rw publish_run refl

client_answer :
    (serve sample_settings sample_supply
      (snapshot_request (some (js "Bearer " ++ js "fs_client_1234")) none)
      published_site).0.body
    ≡ payload_body published.client
unfolding snapshot_reply served_as payload_for snapshot_row is_held_by
client_answer =
    ap (λ r. r.body)
      (get_snapshot_reply sample_settings sample_supply (js "fs_client_1234") none scope
          published_site authenticated
        ∙ ap (snapshot_reply sample_settings none) latest_published)

client_snapshot-no_leaks_example : find_server_only_leaks published.client ≡ []
client_snapshot-no_leaks_example =
    client_snapshot-no_leaks sample_settings sample_site published_site sample_supply
      (js "fs_client_1234") none scope published.client refl published-Reach authenticated refl
      client_answer

Reach-IsSound_example : IsSound published_site.database
Reach-IsSound_example =
    Reach-IsSound sample_settings sample_site published_site refl published-Reach

-- A second publish, of which only the first is asked what it served.
abbrev republished_site : Site
republished_site =
    (serve sample_settings sample_supply (admin_request admin publishing) published_site).1

Reach-version_monotone_example :
    (later : LatestSnapshot) × (latest_snapshot republished_site.database (js "e1") KeyKind.client
      ≡ some later)
    × (3 ≤ later.version)
unfolding served_as snapshot_row
Reach-version_monotone_example =
    Reach-version_monotone sample_settings published_site republished_site (js "e1") KeyKind.client
      (served_as (js "e1") KeyKind.client (snapshot_row sample_engine options 3 published))
      (served sample_supply (admin_request admin publishing) started) latest_published

sample-IsKeyed : IsKeyed sample_database
sample-IsKeyed d e (inl p) (inl q) same = p ∙ sym q
sample-IsKeyed d e (inl p) (inr (inl q)) same = absurd (ground (arith, p, q))
sample-IsKeyed d e (inr (inl p)) (inl q) same = absurd (ground (arith, p, q))
sample-IsKeyed d e (inr (inl p)) (inr (inl q)) same = p ∙ sym q
sample-IsKeyed d e (inl p) (inr (inr q)) same = absurd q
sample-IsKeyed d e (inr (inl p)) (inr (inr q)) same = absurd q
sample-IsKeyed d e (inr (inr p)) n same = absurd p

publish_ruleset-serves_example :
    (p : PublishResult) × ((publish_ruleset sample_engine (js "") options sample_database).0
      ≡ done p)
    × (p.version ≡ 3)
    × (latest_snapshot
          (publish_ruleset sample_engine (js "") options sample_database).1
          (js "e1")
          KeyKind.server
        ≡ some
            (served_as (js "e1") KeyKind.server (snapshot_row sample_engine options 3 published)))
publish_ruleset-serves_example =
    publish_ruleset-serves sample_engine (js "") options sample_database prod published
      KeyKind.server (empty-IsSound sample_database refl) sample-IsKeyed prod_found inputs_accepted
