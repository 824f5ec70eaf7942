-- ===== src/ControlPlane/Server/Isolation.antt =====
-- Tenants: what an admin request for one leaves of the others.
use flagship_platform.Shared.{
  ◌≡◌, refl, sym, ap, subst, Option-cases, ◌∙◌, ℕ, true, false, Option, none, some, List, [], ◌∷◌,
  filter, Bool-cases, inl, inr, and-true,
}
use flagship_platform.Js.Text.{JsString, str_eq, str_eq_iff}
use flagship_platform.ControlPlane.Database.{
  Database, Environment, FlagRecord, FlagConfig, SnapshotRow,
}
use flagship_platform.ControlPlane.Database.Effects.{
  IsPreorder, Within, bind-Within, gets-Within, throw-Within, pure-Within, with_transaction-Within,
  guarded-related,
}
use flagship_platform.ControlPlane.Repository.{Engine, find}
use flagship_platform.ControlPlane.Repository.Rows.{filter-insert_other, filter-update_others}
use flagship_platform.ControlPlane.Repository.Writes.{
  CreateApiKeyInput, key_row, insert_api_key, AuditEntry, audit_row, write_audit, CreateFlagInput,
  new_config, key_taken, insert_flag, insert_config, insert_configs, UpdateFlagConfigInput,
  is_config_of, changed_config, update_configs, touch_flag,
}
use flagship_platform.ControlPlane.Repository.Publish.{
  version_taken, PublishOptions, is_environment, bump_version, bumped, insert_snapshot,
  snapshot_row, store, publish_ruleset,
}
use flagship_platform.ControlPlane.Repository.Reads.{FlagDetail}
use flagship_platform.ControlPlane.Ruleset.Compile.{Compiled, refused, compiled, compile_ruleset}
use flagship_platform.ControlPlane.Server.{Settings, Supply}
use flagship_platform.ControlPlane.Server.Routes.{AdminRequest, admin_request, Site, serve}
use flagship_platform.ControlPlane.Server.Effects.{Respects, tenant_of, serve-admin_route}
use flagship_platform.ControlPlane.Server.Effects.Handlers.{admin_route-Within}

-- The rows of one tenant.
unfoldable pub view_of : (tenant_id : JsString) → Database → Database
view_of u db = record {
  tenants = filter (λ t. str_eq t.id u) db.tenants;
  environments = filter (λ e. str_eq e.tenant_id u) db.environments;
  segments = filter (λ s. str_eq s.tenant_id u) db.segments;
  flags = filter (λ f. str_eq f.tenant_id u) db.flags;
  configs = filter (λ c. str_eq c.tenant_id u) db.configs;
  api_keys = filter (λ k. str_eq k.tenant_id u) db.api_keys;
  audit_log = filter (λ a. str_eq a.tenant_id u) db.audit_log;
  snapshots = filter (λ s. str_eq s.tenant_id u) db.snapshots;
}

-- The tenants that are not `Owned` keep their rows.
abbrev Spares : (Owned : JsString → Type 0) → Database → Database → Type 0
Spares Owned db db' = (u : JsString) → ¬ Owned u → view_of u db' ≡ view_of u db

Spares-IsPreorder : (Owned : JsString → Type 0) → IsPreorder (Spares Owned)
Spares-IsPreorder Owned = record {
  same = λ db u other. refl;
  trans = λ first second u other. second u other ∙ first u other;
}

other_tenant :
    (Owned : JsString → Type 0) (t u : JsString) → Owned t → ¬ Owned u → str_eq t u ≡ false
other_tenant Owned t u mine other = elim (Bool-cases (str_eq t u)) [
  | inl same ↦ absurd (other (subst Owned ((str_eq_iff t u).0 same) mine))
  | inr different ↦ different
]

module _ (Owned : JsString → Type 0) where
  api_key-Spares :
      (id : JsString) (input : CreateApiKeyInput)
      → Owned input.tenant_id
      → Within (Spares Owned) (insert_api_key id input)
  unfolding insert_api_key key_row view_of
  api_key-Spares id input mine = record {
    related = λ db. guarded-related (Spares-IsPreorder Owned) _ _ _ db _ (λ u other.
        ap (λ keys. record (view_of u db) { api_keys = keys })
          (filter-insert_other (λ k. str_eq k.tenant_id u) db.api_keys (key_row id input)
            (other_tenant Owned _ u mine other)));
  }

  audit-Spares :
      (now : ℕ) (entry : AuditEntry)
      → Owned entry.tenant_id
      → Within (Spares Owned) (write_audit now entry)
  unfolding write_audit audit_row view_of
  audit-Spares now entry mine = record {
    related = λ db. guarded-related (Spares-IsPreorder Owned) _ _ _ db _ (λ u other.
        ap (λ rows. record (view_of u db) { audit_log = rows })
          (filter-insert_other (λ a. str_eq a.tenant_id u) db.audit_log (audit_row now entry)
            (other_tenant Owned _ u mine other)));
  }

  flag-Spares : (f : FlagRecord) → Owned f.tenant_id → Within (Spares Owned) (insert_flag f)
  unfolding insert_flag view_of
  flag-Spares f mine = record {
    related = λ db. elim (Bool-cases (key_taken db f.tenant_id f.key)) [
      | inl taken ↦ rw taken (λ u other. refl)
      | inr free ↦ rw free (
          guarded-related (Spares-IsPreorder Owned) _ _ _ db _ (λ u other.
            ap (λ rows. record (view_of u db) { flags = rows })
              (filter-insert_other (λ g. str_eq g.tenant_id u) db.flags f
                (other_tenant Owned _ u mine other))))
    ];
  }

  config-Spares : (c : FlagConfig) → Owned c.tenant_id → Within (Spares Owned) (insert_config c)
  unfolding insert_config view_of
  config-Spares c mine = record {
    related = λ db u other.
        ap (λ rows. record (view_of u db) { configs = rows })
          (filter-insert_other (λ c. str_eq c.tenant_id u) db.configs c
            (other_tenant Owned _ u mine other));
  }

  configs-Spares :
      (input : CreateFlagInput) (flag_id : JsString) (environments : List Environment)
      → Owned input.tenant_id
      → Within (Spares Owned) (insert_configs input flag_id environments)
  unfolding insert_configs new_config
  configs-Spares input flag_id [] mine = pure-Within (Spares-IsPreorder Owned) _
  configs-Spares input flag_id (e ∷ environments) mine =
      bind-Within (Spares-IsPreorder Owned) _ _ (config-Spares (new_config input flag_id e) mine)
        (λ _. configs-Spares input flag_id environments mine)

  -- A row of another tenant's view is not of the tenant `t`.
  not_of : (t u row : JsString) → Owned t → ¬ Owned u → str_eq row t ≡ true → str_eq row u ≡ false
  not_of t u row mine other same =
      other_tenant Owned row u (subst Owned (sym ((str_eq_iff row t).0 same)) mine) other

  change-Spares :
      (input : UpdateFlagConfigInput) (previous : FlagDetail)
      → Owned input.tenant_id
      → Within (Spares Owned) (update_configs input previous)
  unfolding update_configs is_config_of changed_config view_of
  change-Spares input previous mine = record {
    related = λ db u other.
        ap (λ rows. record (view_of u db) { configs = rows })
          (filter-update_others (λ c. str_eq c.tenant_id u) (is_config_of db input)
            (changed_config input previous) db.configs
            (λ c hit.
              let away =
                not_of input.tenant_id u c.tenant_id mine other (and-true (and-true hit).1).0 in
              (away, away)));
  }

  touch-Spares :
      (now : ℕ) (tenant_id key : JsString)
      → Owned tenant_id
      → Within (Spares Owned) (touch_flag now tenant_id key)
  unfolding touch_flag view_of
  touch-Spares now tenant_id key mine = record {
    related = λ db u other.
        ap (λ rows. record (view_of u db) { flags = rows })
          (filter-update_others (λ f. str_eq f.tenant_id u) _ _ db.flags
            (λ f hit.
              let away = not_of tenant_id u f.tenant_id mine other (and-true hit).0 in
              (away, away)));
  }

  bump-Spares :
      (options : PublishOptions)
      → Owned options.tenant_id
      → Within (Spares Owned) (bump_version options)
  unfolding bump_version bumped is_environment view_of
  bump-Spares options mine = record {
    related = λ db. elim (Option-cases (find (is_environment options) db.environments)) [
      | inl missing ↦ rw (bump_version, missing) (λ u other. refl)
      | inr (e, found) ↦
          rw (bump_version, found)
            (λ u other.
              ap (λ rows. record (view_of u db) { environments = rows })
                (filter-update_others (λ e. str_eq e.tenant_id u) (is_environment options) _
                  db.environments
                  (λ e hit.
                    let away = not_of options.tenant_id u e.tenant_id mine other (and-true hit).1 in
                    (away, away))))
    ];
  }

  snapshot-Spares :
      (row : SnapshotRow) → Owned row.tenant_id → Within (Spares Owned) (insert_snapshot row)
  unfolding insert_snapshot view_of
  snapshot-Spares row mine = record {
    related = λ db. elim (Bool-cases (version_taken db.snapshots row)) [
      | inl taken ↦ rw (insert_snapshot, taken) (λ u other. refl)
      | inr free ↦
          rw (insert_snapshot, free)
            (λ u other.
              ap (λ rows. record (view_of u db) { snapshots = rows })
                (filter-insert_other (λ s. str_eq s.tenant_id u) db.snapshots row
                  (other_tenant Owned _ u mine other)))
    ];
  }

  store-Spares :
      (engine : Engine) (options : PublishOptions) (version : ℕ) (result : Option Compiled)
      → Owned options.tenant_id
      → Within (Spares Owned) (store engine options version result)
  unfolding store snapshot_row
  store-Spares engine options version none mine = throw-Within (Spares-IsPreorder Owned) _
  store-Spares engine options version (some (refused problems)) mine =
      throw-Within (Spares-IsPreorder Owned) _
  store-Spares engine options version (some (compiled c)) mine =
      bind-Within (Spares-IsPreorder Owned) _ _
        (snapshot-Spares (snapshot_row engine options version c) mine)
        (λ _. pure-Within (Spares-IsPreorder Owned) _)

  publish-Spares :
      (engine : Engine) (served_at : JsString) (options : PublishOptions)
      → Owned options.tenant_id
      → Within (Spares Owned) (publish_ruleset engine served_at options)
  unfolding publish_ruleset
  publish-Spares engine served_at options mine =
      with_transaction-Within (Spares-IsPreorder Owned) _ (
        bind-Within (Spares-IsPreorder Owned) _ _ (bump-Spares options mine) (λ version.
          bind-Within (Spares-IsPreorder Owned) _ _ (gets-Within (Spares-IsPreorder Owned) _)
            (λ inputs. store-Spares engine options version (compile_ruleset inputs) mine)))

  Spares-Respects : (settings : Settings) → Respects (Spares Owned) Owned settings
  Spares-Respects settings = record {
    preorder = Spares-IsPreorder Owned;
    api_key = api_key-Spares;
    audit = audit-Spares;
    flag = λ f mine _. flag-Spares f mine;
    configs = configs-Spares;
    change = change-Spares;
    touch = touch-Spares;
    publish = publish-Spares settings.engine;
  }

-- Whatever an admin request does and however it ends, a tenant that it does not name keeps all its
-- rows.
pub serve-isolated :
    (settings : Settings) (supply : Supply) (authorization : Option JsString)
    (request : AdminRequest) (site : Site) (u : JsString)
    → ¬ (tenant_of request ≡ some u)
    → view_of u (serve settings supply (admin_request authorization request) site).1.database
      ≡ view_of u site.database
serve-isolated settings supply authorization request site u unnamed =
    ap (view_of u) (serve-admin_route settings supply authorization request site)
    ∙ (admin_route-Within settings supply
          (Spares-Respects (λ t. tenant_of request ≡ some t) settings) authorization request
          (λ t named. named)).related
        site.database u unnamed
