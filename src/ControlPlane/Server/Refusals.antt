-- ===== src/ControlPlane/Server/Refusals.antt =====
-- Admin requests that are refused, and what they leave of the database.
use flagship_platform.Shared.{
  ◌≡◌, refl, ap, Bool, true, false, not, ◌&&◌, Option, none, some, arith, leb, ltb, if◌then◌else◌,
}
use flagship_platform.Js.Text.{JsString}
use flagship_platform.Core.Visibility.{KeyKind}
use flagship_platform.ControlPlane.Database.{
  Database, Failure, unique_violation, foreign_key_violation, environment_not_found, never_compiled,
  invalid_ruleset, Outcome, done, failed, Action, pure, throw, gets, continue, ◌>>=◌, commit,
  with_transaction,
}
use flagship_platform.ControlPlane.Repository.Reads.{FlagDetail, get_flag}
use flagship_platform.ControlPlane.Repository.Writes.{
  insert_api_key, update_configs, touch_flag, write_audit, CreateFlagInput, create_flag,
  UpdateFlagConfigInput, update_found, update_flag_config,
}
use flagship_platform.ControlPlane.Repository.Publish.{PublishOptions, PublishResult}
use flagship_platform.ControlPlane.Repository.Publish.Outcomes.{
  Publishes, publish_ruleset-Publishes,
}
use flagship_platform.ControlPlane.Server.{
  Reply, Settings, Supply, present, both, finish, respond, require_admin,
}
use flagship_platform.ControlPlane.Server.Admin.{
  get_flags, after_publish, publish_as, post_publish, create_key, post_api_keys, kind_of,
  get_tenants, get_environments, get_segments, get_audit,
}
use flagship_platform.ControlPlane.Server.Admin.Flags.{
  get_flag_route, after_create, create_declared, declares_fallbacks, is_key, create_checked,
  post_flags, sent_flag, after_update, update_as, patch_flag,
}
use flagship_platform.ControlPlane.Server.Routes.{
  AdminRequest, list_flags_request, publish_request, create_key_request, list_tenants_request,
  list_environments_request, list_segments_request, read_flag_request, create_flag_request,
  patch_flag_request, audit_request, admin_handler, admin_route, admin_request, Site, serve,
}

-- A status from 400 to 499.
unfoldable pub is_refusal : Reply → Bool
is_refusal r = leb 400 r.status && ltb r.status 500

-- A refusal leaves the database as it was.
abbrev Settles : Database → Outcome Reply × Database → Type 0
Settles before (done r, after) = is_refusal r ≡ true → after ≡ before
Settles before (failed e, after) = Unit

record Refuses (m : Action Reply) : Type 0 where
  settles : (db : Database) → Settles db (m db)

reads-Refuses : (f : Database → Reply) → Refuses (gets f)
reads-Refuses f = record { settles = λ db refused. refl }

pure-Refuses : (r : Reply) → Refuses (pure r)
pure-Refuses r = record { settles = λ db refused. refl }

if-Refuses :
    (test : Bool) (m n : Action Reply) → Refuses m → Refuses n → Refuses (if test then m else n)
if-Refuses true m n h k = h
if-Refuses false m n h k = k

-- Code that never answers with a refusal.
abbrev IsAnswer : Outcome Reply → Type 0
IsAnswer (done r) = is_refusal r ≡ false
IsAnswer (failed e) = Unit

record Answers (m : Action Reply) : Type 0 where
  answer : (db : Database) → IsAnswer (m db).0

pure-Answers : (r : Reply) → is_refusal r ≡ false → Answers (pure r)
pure-Answers r h = record { answer = λ db. h }

throw-Answers : (e : Failure) → Answers (throw e)
throw-Answers e = record { answer = λ db. tt }

continue-IsAnswer :
    {A : Type 0} (r : Outcome A) (f : A → Action Reply) (db : Database)
    → ((a : A) → Answers (f a))
    → IsAnswer (continue r f db).0
continue-IsAnswer (done a) f db h = (h a).answer db
continue-IsAnswer (failed e) f db h = tt

-- What follows a step decides.
bind-Answers :
    {A : Type 0} (m : Action A) (f : A → Action Reply)
    → ((a : A) → Answers (f a))
    → Answers (m >>= f)
bind-Answers m f h = record { answer = λ db. continue-IsAnswer (m db).0 f (m db).1 h }

IsAnswer-Settles :
    (before : Database) (result : Outcome Reply × Database)
    → IsAnswer result.0
    → Settles before result
IsAnswer-Settles before (done r, after) h = λ refused. absurd (ground arith)
IsAnswer-Settles before (failed e, after) h = tt

Answers-Refuses : (m : Action Reply) → Answers m → Refuses m
Answers-Refuses m h = record { settles = λ db. IsAnswer-Settles db (m db) (h.answer db) }

module _ (settings : Settings) (supply : Supply) where
  after_publish-Settles :
      (options : PublishOptions) (actor : JsString) (db : Database)
      (result : Outcome PublishResult × Database)
      → Publishes settings.engine supply.served_at options db result
      → Settles db (after_publish settings supply options actor result.0 result.1)
  unfolding after_publish is_refusal
  after_publish-Settles options actor db (failed (invalid_ruleset problems), db') (same, _) =
      λ _. same
  after_publish-Settles options actor db (failed unique_violation, db') h = tt
  after_publish-Settles options actor db (failed foreign_key_violation, db') h = tt
  after_publish-Settles options actor db (failed environment_not_found, db') h = tt
  after_publish-Settles options actor db (failed never_compiled, db') h = tt
  after_publish-Settles options actor db (done p, db') h =
      IsAnswer-Settles db (after_publish settings supply options actor (done p) db')
        ((bind-Answers (write_audit supply.now _) _ (λ _. pure-Answers _ refl)).answer db')

  publish_as-Refuses :
      (options : PublishOptions) (actor : JsString)
      → Refuses (publish_as settings supply options actor)
  unfolding publish_as
  publish_as-Refuses options actor = record {
    settles = λ db.
        after_publish-Settles options actor db _
          (publish_ruleset-Publishes settings.engine supply.served_at options db);
  }

  create_key-Answers :
      (t e name : JsString) (kind : KeyKind) → Answers (create_key settings supply t e name kind)
  unfolding create_key is_refusal
  create_key-Answers t e name kind =
      bind-Answers (insert_api_key supply.id _) _
        (λ id. bind-Answers (write_audit supply.now _) _ (λ _. pure-Answers _ refl))

  -- A throw in the transaction, or what the change returned.
  after_create-Settles :
      (input : CreateFlagInput) (before : Database) (result : Outcome (Unit {0}) × Database)
      → Settles before
          (let (r, after) = commit before result in after_create settings supply input r after)
  unfolding after_create is_refusal
  after_create-Settles input before (failed unique_violation, db) = λ _. refl
  after_create-Settles input before (failed foreign_key_violation, db) = tt
  after_create-Settles input before (failed environment_not_found, db) = tt
  after_create-Settles input before (failed never_compiled, db) = tt
  after_create-Settles input before (failed (invalid_ruleset problems), db) = tt
  after_create-Settles input before (done x, db) =
      IsAnswer-Settles before (after_create settings supply input (done x) db)
        ((bind-Answers (write_audit supply.now _) _ (λ _. pure-Answers _ refl)).answer db)

  create_checked-Refuses :
      (input : CreateFlagInput) → Refuses (create_checked settings supply input)
  unfolding create_checked create_declared create_flag with_transaction
  create_checked-Refuses input = if-Refuses (not (is_key input.key)) _ _ (pure-Refuses _) (
      if-Refuses (not (declares_fallbacks settings supply input)) _ _ (pure-Refuses _)
        (record { settles = λ db. after_create-Settles input db _ }))

  sent_flag_status :
      (found : Option FlagDetail) → is_refusal (sent_flag settings supply found) ≡ false
  unfolding is_refusal
  sent_flag_status none = refl
  sent_flag_status (some flag) = refl

  after_update-Answers :
      (input : UpdateFlagConfigInput) (previous : FlagDetail)
      → Answers (after_update settings supply input (some previous))
  unfolding after_update
  after_update-Answers input previous = bind-Answers (write_audit supply.now _) _ (λ _.
      bind-Answers (gets (λ db. get_flag db input.tenant_id input.environment_id input.key)) _
        (λ found. pure-Answers _ (sent_flag_status found)))

  after_found-Settles :
      (input : UpdateFlagConfigInput) (found : Option FlagDetail) (db : Database)
      → Settles db ((update_found supply.now input found >>= after_update settings supply input) db)
  unfolding update_found update_configs touch_flag after_update
  after_found-Settles input none db = λ refused. refl
  after_found-Settles input (some previous) db =
      IsAnswer-Settles db (after_update settings supply input (some previous) _)
        ((after_update-Answers input previous).answer _)

  update_as-Refuses : (input : UpdateFlagConfigInput) → Refuses (update_as settings supply input)
  unfolding update_as update_flag_config
  update_as-Refuses input = record {
    settles = λ db.
        after_found-Settles input (get_flag db input.tenant_id input.environment_id input.key) db;
  }

  -- A handler that checks its fields first.
  checked-Refuses :
      {X : Type 0} (found : Option X) (refusal : Reply) (handler : X → Action Reply)
      → ((x : X) → Refuses (handler x))
      → Refuses (elim found as (λ _. Action Reply) [ none ↦ pure refusal | some x ↦ handler x ])
  checked-Refuses none refusal handler h = pure-Refuses refusal
  checked-Refuses (some x) refusal handler h = h x

  admin_handler-Refuses : (request : AdminRequest) → Refuses (admin_handler settings supply request)
  unfolding admin_handler get_flags get_tenants get_environments get_segments get_flag_route
      get_audit post_publish post_api_keys post_flags patch_flag
  admin_handler-Refuses (list_flags_request t e) =
      checked-Refuses (both (present t) (present e)) _ _ (λ _. reads-Refuses _)
  admin_handler-Refuses (publish_request t e k actor) =
      checked-Refuses (both (present t) (both (present e) (present k))) _ _
        (λ _. publish_as-Refuses _ _)
  admin_handler-Refuses (create_key_request t e name kind) =
      checked-Refuses (both (present t) (both (present e) (present name))) _ _ (λ _.
        checked-Refuses (kind_of kind) _ _ (λ _. Answers-Refuses _ (create_key-Answers _ _ _ _)))
  admin_handler-Refuses list_tenants_request = reads-Refuses _
  admin_handler-Refuses (list_environments_request t) =
      checked-Refuses (present t) _ _ (λ _. reads-Refuses _)
  admin_handler-Refuses (list_segments_request t) =
      checked-Refuses (present t) _ _ (λ _. reads-Refuses _)
  admin_handler-Refuses (read_flag_request key t e) =
      checked-Refuses (both (present t) (present e)) _ _ (λ _. reads-Refuses _)
  admin_handler-Refuses (create_flag_request t key description vs d o) =
      checked-Refuses (both (present t) (present key)) _ _ (λ _. create_checked-Refuses _)
  admin_handler-Refuses (patch_flag_request key t e enabled d o rules) =
      checked-Refuses (both (present t) (present e)) _ _ (λ _. update_as-Refuses _)
  admin_handler-Refuses (audit_request t resource_key) =
      checked-Refuses (present t) _ _ (λ _. reads-Refuses _)

  admin_route-Refuses :
      (authorization : Option JsString) (request : AdminRequest)
      → Refuses (admin_route settings supply authorization request)
  unfolding admin_route
  admin_route-Refuses authorization request =
      if-Refuses (require_admin settings.admin_token authorization) _ _
        (admin_handler-Refuses request) (pure-Refuses _)

finish-Settles :
    (before : Database) (result : Outcome Reply × Database)
    → Settles before result
    → is_refusal (finish result).0 ≡ true
    → (finish result).1 ≡ before
unfolding is_refusal
finish-Settles before (done r, after) h refused = h refused
finish-Settles before (failed e, after) h refused = absurd (ground arith)

-- An admin request that is answered with a status from 400 to 499, for whatever reason, leaves the
-- database and the exposure writer as they were.
pub serve_refusal-unchanged :
    (settings : Settings) (supply : Supply) (authorization : Option JsString)
    (request : AdminRequest) (site : Site)
    → is_refusal (serve settings supply (admin_request authorization request) site).0 ≡ true
    → (serve settings supply (admin_request authorization request) site).1 ≡ site
unfolding serve respond
serve_refusal-unchanged settings supply authorization request site refused =
    ap (λ db. record site { database = db })
      (finish-Settles site.database
        (admin_route settings supply authorization request site.database)
        ((admin_route-Refuses settings supply authorization request).settles site.database) refused)
