-- ===== src/ControlPlane/Server/Effects/Handlers.antt =====
-- The handlers of the admin routes, by the statements that they run.
use flagship_platform.Shared.{
  ◌≡◌, ℕ, Bool, Option, none, some, List, not, Option-cases, arith, true, inl, inr,
}
use flagship_platform.Js.Text.{JsString}
use flagship_platform.Core.Types.{Variation, TargetingRule}
use flagship_platform.Core.Visibility.{KeyKind}
use flagship_platform.ControlPlane.Database.{
  Database, unique_violation, foreign_key_violation, environment_not_found, never_compiled,
  invalid_ruleset, Outcome, done, failed, Action, pure, gets,
}
use flagship_platform.ControlPlane.Database.Effects.{
  Within, pure-Within, gets-Within, bind-Within, with_transaction-Within, attempt-Within, if-Within,
  throw-Within,
}
use flagship_platform.ControlPlane.Repository.Reads.{FlagDetail, get_flag}
use flagship_platform.ControlPlane.Repository.Writes.{
  CreateFlagInput, new_flag, create_flag, UpdateFlagConfigInput, update_found, update_flag_config,
}
use flagship_platform.ControlPlane.Repository.Publish.{PublishOptions, PublishResult}
use flagship_platform.ControlPlane.Server.{Reply, Settings, Supply, present, both, require_admin}
use flagship_platform.ControlPlane.Server.Admin.{
  get_flags, after_publish, post_publish, create_key, post_api_keys, get_tenants, get_environments,
  get_segments, get_audit, kind_of, publish_as,
}
use flagship_platform.ControlPlane.Server.Admin.Flags.{
  get_flag_route, after_create, post_flags, after_update, patch_flag, is_key, create_checked,
  create_declared, declares_fallbacks, update_as, sent_flag,
}
use flagship_platform.ControlPlane.Server.Routes.{
  AdminRequest, admin_handler, admin_route, list_flags_request, publish_request, create_key_request,
  list_tenants_request, list_environments_request, list_segments_request, read_flag_request,
  create_flag_request, patch_flag_request, audit_request,
}
use flagship_platform.ControlPlane.Server.Effects.{Respects, tenant_of, both-first}

module _ {R : Database → Database → Type 0} {Owned : JsString → Type 0} (settings : Settings)
    (supply : Supply) (respects : Respects R Owned settings) where
  open respects use {preorder, api_key, audit, flag, configs, change, touch, publish}
  open supply use {now}

  create_flag-Within :
      (now : ℕ) (id salt : JsString) (input : CreateFlagInput)
      → Owned input.tenant_id
      → is_key input.key ≡ true
      → Within R (create_flag now id salt input)
  unfolding create_flag new_flag
  create_flag-Within now id salt input owned checked = with_transaction-Within preorder _ (
      bind-Within preorder _ _ (flag (new_flag now id salt input) owned checked) (λ flag_id.
        bind-Within preorder _ _ (gets-Within preorder _)
          (λ environments. configs input flag_id environments owned)))

  update_found-Within :
      (now : ℕ) (input : UpdateFlagConfigInput) (found : Option FlagDetail)
      → Owned input.tenant_id
      → Within R (update_found now input found)
  unfolding update_found
  update_found-Within now input none owned = pure-Within preorder _
  update_found-Within now input (some previous) owned =
      bind-Within preorder _ _ (change input previous owned) (λ _.
        bind-Within preorder _ _ (touch now input.tenant_id input.key owned)
          (λ _. pure-Within preorder _))

  update_flag_config-Within :
      (now : ℕ) (input : UpdateFlagConfigInput)
      → Owned input.tenant_id
      → Within R (update_flag_config now input)
  unfolding update_flag_config
  update_flag_config-Within now input owned =
      bind-Within preorder _ _ (gets-Within preorder _)
        (λ found. update_found-Within now input found owned)

  after_publish-Within :
      (options : PublishOptions) (actor : JsString) (result : Outcome PublishResult)
      → Owned options.tenant_id
      → Within R (after_publish settings supply options actor result)
  unfolding after_publish
  after_publish-Within options actor (failed (invalid_ruleset problems)) owned =
      pure-Within preorder _
  after_publish-Within options actor (failed unique_violation) owned = record {
    related = λ db. preorder.same db;
  }
  after_publish-Within options actor (failed foreign_key_violation) owned = record {
    related = λ db. preorder.same db;
  }
  after_publish-Within options actor (failed environment_not_found) owned = record {
    related = λ db. preorder.same db;
  }
  after_publish-Within options actor (failed never_compiled) owned = record {
    related = λ db. preorder.same db;
  }
  after_publish-Within options actor (done p) owned =
      bind-Within preorder _ _ (audit supply.now _ owned) (λ _. pure-Within preorder _)

  after_create-Within :
      (input : CreateFlagInput) (result : Outcome (Unit {0}))
      → Owned input.tenant_id
      → Within R (after_create settings supply input result)
  unfolding after_create
  after_create-Within input (failed unique_violation) owned = pure-Within preorder _
  after_create-Within input (failed foreign_key_violation) owned = throw-Within preorder _
  after_create-Within input (failed environment_not_found) owned = throw-Within preorder _
  after_create-Within input (failed never_compiled) owned = throw-Within preorder _
  after_create-Within input (failed (invalid_ruleset problems)) owned = throw-Within preorder _
  after_create-Within input (done _) owned =
      bind-Within preorder _ _ (audit supply.now _ owned) (λ _. pure-Within preorder _)

  create_checked-Within :
      (input : CreateFlagInput)
      → Owned input.tenant_id
      → Within R (create_checked settings supply input)
  unfolding create_checked create_declared
  create_checked-Within input owned =
      if-Within preorder (not (is_key input.key)) _ _ (λ _. pure-Within preorder _)
        (λ checked.
          if-Within preorder (not (declares_fallbacks settings supply input)) _ _
            (λ _. pure-Within preorder _)
            (λ _.
              bind-Within preorder _ _
                (attempt-Within preorder _
                  (create_flag-Within now supply.id supply.salt input owned (ground arith)))
                (λ created. after_create-Within input created owned)))

  after_update-Within :
      (input : UpdateFlagConfigInput) (found : Option FlagDetail)
      → Owned input.tenant_id
      → Within R (after_update settings supply input found)
  unfolding after_update
  after_update-Within input none owned = pure-Within preorder _
  after_update-Within input (some previous) owned =
      bind-Within preorder _ _ (audit supply.now _ owned) (λ _.
        bind-Within preorder _ _
          (gets-Within preorder (λ db. get_flag db input.tenant_id input.environment_id input.key))
          (λ flag. pure-Within preorder (sent_flag settings supply flag)))

  create_key-Within :
      (t e name : JsString) (kind : KeyKind)
      → Owned t
      → Within R (create_key settings supply t e name kind)
  unfolding create_key
  create_key-Within t e name kind owned =
      bind-Within preorder _ _ (api_key supply.id _ owned)
        (λ _. bind-Within preorder _ _ (audit supply.now _ owned) (λ _. pure-Within preorder _))

  publish_as-Within :
      (options : PublishOptions) (actor : JsString)
      → Owned options.tenant_id
      → Within R (publish_as settings supply options actor)
  unfolding publish_as
  publish_as-Within options actor owned =
      bind-Within preorder _ _ (attempt-Within preorder _ (publish supply.served_at options owned))
        (λ result. after_publish-Within options actor result owned)

  update_as-Within :
      (input : UpdateFlagConfigInput)
      → Owned input.tenant_id
      → Within R (update_as settings supply input)
  unfolding update_as
  update_as-Within input owned =
      bind-Within preorder _ _ (update_flag_config-Within now input owned)
        (λ updated. after_update-Within input updated owned)

  post_publish-Within :
      (tenant e k actor : Option JsString)
      → ((t : JsString) → present tenant ≡ some t → Owned t)
      → Within R (post_publish settings supply tenant e k actor)
  unfolding post_publish
  post_publish-Within tenant e k actor owned =
      elim (Option-cases (both (present tenant) (both (present e) (present k)))) [
        | inl missing ↦ rw (post_publish, missing) (pure-Within preorder _)
        | inr ((t, rest), given) ↦
            rw (post_publish, given) (publish_as-Within _ _ (owned t (both-first _ _ given)))
      ]

  post_api_keys-Within :
      (tenant e name kind : Option JsString)
      → ((t : JsString) → present tenant ≡ some t → Owned t)
      → Within R (post_api_keys settings supply tenant e name kind)
  unfolding post_api_keys
  post_api_keys-Within tenant e name kind owned =
      elim (Option-cases (both (present tenant) (both (present e) (present name)))) [
        | inl missing ↦ rw (post_api_keys, missing) (pure-Within preorder _)
        | inr ((t, (e', n)), given) ↦ elim (Option-cases (kind_of kind)) [
          | inl bad ↦ rw (post_api_keys, given, bad) (pure-Within preorder _)
          | inr (k, good) ↦
              rw (post_api_keys, given, good)
                (create_key-Within t e' n k (owned t (both-first _ _ given)))
        ]
      ]

  post_flags-Within :
      (tenant key description : Option JsString) (variations : Option (List Variation))
      (default_key off_key : Option JsString)
      → ((t : JsString) → present tenant ≡ some t → Owned t)
      → Within R (post_flags settings supply tenant key description variations default_key off_key)
  unfolding post_flags
  post_flags-Within tenant key description variations default_key off_key owned =
      elim (Option-cases (both (present tenant) (present key))) [
        | inl missing ↦ rw (post_flags, missing) (pure-Within preorder _)
        | inr ((t, k), given) ↦
            rw (post_flags, given) (create_checked-Within _ (owned t (both-first _ _ given)))
      ]

  patch_flag-Within :
      (key : JsString) (tenant e : Option JsString) (enabled : Option Bool)
      (default_key off_key : Option JsString) (rules : Option (List TargetingRule))
      → ((t : JsString) → present tenant ≡ some t → Owned t)
      → Within R (patch_flag settings supply key tenant e enabled default_key off_key rules)
  unfolding patch_flag
  patch_flag-Within key tenant e enabled default_key off_key rules owned =
      elim (Option-cases (both (present tenant) (present e))) [
        | inl missing ↦ rw (patch_flag, missing) (pure-Within preorder _)
        | inr ((t, e'), given) ↦
            rw (patch_flag, given) (update_as-Within _ (owned t (both-first _ _ given)))
      ]

  -- Reading changes nothing.
  reading-Within :
      {X : Type 0} (found : Option X) (refusal : Reply) (answer : X → Database → Reply)
      → Within R
          (elim found as (λ _. Action Reply) [ none ↦ pure refusal | some x ↦ gets (answer x) ])
  reading-Within none refusal answer = pure-Within preorder _
  reading-Within (some x) refusal answer = gets-Within preorder _

  pub admin_handler-Within :
      (request : AdminRequest)
      → ((t : JsString) → tenant_of request ≡ some t → Owned t)
      → Within R (admin_handler settings supply request)
  unfolding admin_handler get_flags get_tenants get_environments get_segments get_flag_route
      get_audit tenant_of
  admin_handler-Within (list_flags_request t e) owned =
      reading-Within (both (present t) (present e)) _ _
  admin_handler-Within (publish_request t e k actor) owned = post_publish-Within t e k actor owned
  admin_handler-Within (create_key_request t e name kind) owned =
      post_api_keys-Within t e name kind owned
  admin_handler-Within list_tenants_request owned = gets-Within preorder _
  admin_handler-Within (list_environments_request t) owned = reading-Within (present t) _ _
  admin_handler-Within (list_segments_request t) owned = reading-Within (present t) _ _
  admin_handler-Within (read_flag_request key t e) owned =
      reading-Within (both (present t) (present e)) _ _
  admin_handler-Within (create_flag_request t key description vs d o) owned =
      post_flags-Within t key description vs d o owned
  admin_handler-Within (patch_flag_request key t e enabled d o rules) owned =
      patch_flag-Within key t e enabled d o rules owned
  admin_handler-Within (audit_request t resource_key) owned = reading-Within (present t) _ _

  pub admin_route-Within :
      (authorization : Option JsString) (request : AdminRequest)
      → ((t : JsString) → tenant_of request ≡ some t → Owned t)
      → Within R (admin_route settings supply authorization request)
  unfolding admin_route
  admin_route-Within authorization request owned =
      if-Within preorder (require_admin settings.admin_token authorization) _ _
        (λ _. admin_handler-Within request owned) (λ _. pure-Within preorder _)
