-- ===== src/ControlPlane/Server/FlagKeys.antt =====
-- The check of flag keys in `POST /v1/flags`, and the bucketing input, into which
-- packages/core/src/bucketing.ts writes keys as they are.
use flagship_platform.Shared.{
  ◌≡◌, ◌≢◌, refl, ap, subst, ◌∙◌, ℕ, Bool, true, false, List, [], ◌∷◌, Bool-cases, inl, inr, arith,
  In, and-true, if◌then◌else◌,
}
use flagship_platform.Js.Text.{JsString}
use flagship_platform.Core.Bucketing.{bucketing_input}
use flagship_platform.Core.Bucketing.Input.{IsColonFree, bucketing_input-injective}
use flagship_platform.ControlPlane.Database.{
  Database, Environment, FlagRecord, FlagConfig, Outcome, done, failed,
}
use flagship_platform.ControlPlane.Database.Effects.{IsPreorder, Within, pure-Within, bind-Within}
use flagship_platform.ControlPlane.Repository.Rows.{In-insert, update_where-In}
use flagship_platform.ControlPlane.Repository.Reads.{FlagDetail}
use flagship_platform.ControlPlane.Repository.Writes.{
  CreateApiKeyInput, insert_api_key, AuditEntry, write_audit, CreateFlagInput, key_taken,
  insert_flag, insert_config, insert_configs, UpdateFlagConfigInput, update_configs, touch_flag,
  touch_key_usage,
}
use flagship_platform.ControlPlane.Repository.{has_tenant}
use flagship_platform.ControlPlane.Server.Admin.Flags.{is_key_unit, are_key_units, is_key}
use flagship_platform.ControlPlane.Server.{Settings}
use flagship_platform.Shared.{◌≢◌}
use flagship_platform.ControlPlane.Repository.{Engine}
use flagship_platform.ControlPlane.Repository.Publish.{
  PublishOptions, PublishResult, bumped, publish_ruleset,
}
use flagship_platform.ControlPlane.Repository.Publish.Outcomes.{
  Publishes, publish_ruleset-Publishes,
}
use flagship_platform.ControlPlane.Repository.Writes.{
  CreateApiKeyInput, insert_api_key, AuditEntry, write_audit, UpdateFlagConfigInput, update_configs,
  touch_key_usage,
}
use flagship_platform.ControlPlane.Repository.Reads.{FlagDetail}
use flagship_platform.ControlPlane.Database.{Outcome, done, failed}
use flagship_platform.ControlPlane.Server.{Settings}
use flagship_platform.ControlPlane.Server.Effects.{Respects}
use flagship_platform.ControlPlane.Server.Requests.{Reach-related}
use flagship_platform.ControlPlane.Server.Routes.{Site, Reach}
use flagship_platform.Core.Bucketing.{bucketing_input}
use flagship_platform.Core.Bucketing.Input.{bucketing_input-injective}

key_unit-not_colon : (c : ℕ) → is_key_unit c ≡ true → c ≢ b':'
unfolding is_key_unit
key_unit-not_colon c h same = ground (arith, same)

are_key_units-IsColonFree : (key : JsString) → are_key_units key ≡ true → IsColonFree key
unfolding are_key_units
are_key_units-IsColonFree [] h = tt
are_key_units-IsColonFree (c ∷ cs) h =
    (key_unit-not_colon c (and-true h).0, are_key_units-IsColonFree cs (and-true h).1)

is_key-IsColonFree : (key : JsString) → is_key key ≡ true → IsColonFree key
unfolding is_key
is_key-IsColonFree [] h = tt
is_key-IsColonFree (c ∷ cs) h = are_key_units-IsColonFree (c ∷ cs) h

-- Every flag has a key that the route accepts.
abbrev HasGoodKeys : Database → Type 0
HasGoodKeys db = (f : FlagRecord) → In f db.flags → is_key f.key ≡ true

record Keeps (db db' : Database) : Type 0 where
  keys : HasGoodKeys db → HasGoodKeys db'

Keeps-IsPreorder : IsPreorder Keeps
Keeps-IsPreorder = record {
  same = λ db. record { keys = λ h. h };
  trans = λ first second. record { keys = λ h. second.keys (first.keys h) };
}

same_flags : (db db' : Database) → db'.flags ≡ db.flags → Keeps db db'
same_flags db db' same = record { keys = λ h f m. h f (subst (In f) same m) }

flag-Keeps : (f : FlagRecord) → is_key f.key ≡ true → Within Keeps (insert_flag f)
unfolding insert_flag
flag-Keeps f good = record {
  related = λ db. elim (Bool-cases (key_taken db f.tenant_id f.key)) [
    | inl taken ↦ rw (insert_flag, taken) (Keeps-IsPreorder.same db)
    | inr free ↦ elim (Bool-cases (has_tenant db f.tenant_id)) [
      | inl known ↦
          rw (insert_flag, free, known)
            (record {
              keys = λ h g m. elim (In-insert g f db.flags m) [
                | inl old ↦ h g old
                | inr new ↦ ap (λ x. is_key x.key) new ∙ good
              ];
            })
      | inr unknown ↦ rw (insert_flag, free, unknown) (Keeps-IsPreorder.same db)
    ]
  ];
}

config-Keeps : (c : FlagConfig) → Within Keeps (insert_config c)
unfolding insert_config
config-Keeps c = record { related = λ db. same_flags db _ refl }

configs-Keeps :
    (input : CreateFlagInput) (flag_id : JsString) (environments : List Environment)
    → Within Keeps (insert_configs input flag_id environments)
unfolding insert_configs
configs-Keeps input flag_id [] = pure-Within Keeps-IsPreorder _
configs-Keeps input flag_id (e ∷ environments) =
    bind-Within Keeps-IsPreorder _ _ (config-Keeps _)
      (λ _. configs-Keeps input flag_id environments)

touched_key :
    (test : Bool) (f : FlagRecord) (now : ℕ)
    → is_key (if test then record f { updated_at = now } else f).key ≡ is_key f.key
touched_key true f now = refl
touched_key false f now = refl

touch-Keeps : (now : ℕ) (tenant_id key : JsString) → Within Keeps (touch_flag now tenant_id key)
unfolding touch_flag
touch-Keeps now tenant_id key = record {
  related = λ db. record {
    keys = λ h f m.
        let (g, there, same) = update_where-In _ _ f db.flags m in
        ap (λ x. is_key x.key) same ∙ touched_key _ g now ∙ h g there;
  };
}

api_key-Keeps : (id : JsString) (input : CreateApiKeyInput) → Within Keeps (insert_api_key id input)
unfolding insert_api_key
api_key-Keeps id input = record { related = λ db. same_flags db _ (ground arith) }

audit-Keeps : (now : ℕ) (entry : AuditEntry) → Within Keeps (write_audit now entry)
unfolding write_audit
audit-Keeps now entry = record { related = λ db. same_flags db _ (ground arith) }

change-Keeps :
    (input : UpdateFlagConfigInput) (previous : FlagDetail)
    → Within Keeps (update_configs input previous)
unfolding update_configs
change-Keeps input previous = record { related = λ db. same_flags db _ refl }

key_usage-Keeps : (now : ℕ) (id : JsString) → Within Keeps (touch_key_usage now id)
unfolding touch_key_usage
key_usage-Keeps now id = record { related = λ db. same_flags db _ refl }

published-Keeps :
    (engine : Engine) (served_at : JsString) (options : PublishOptions) (db : Database)
    (result : Outcome PublishResult × Database)
    → Publishes engine served_at options db result
    → Keeps db result.1
unfolding bumped
published-Keeps engine served_at options db (done p, db') h =
    same_flags db db' (ap (λ d. d.flags) h.stored)
published-Keeps engine served_at options db (failed e, db') (same, _) =
    same_flags db db' (ap (λ d. d.flags) same)

publish-Keeps :
    (engine : Engine) (served_at : JsString) (options : PublishOptions)
    → Within Keeps (publish_ruleset engine served_at options)
publish-Keeps engine served_at options = record {
  related = λ db.
      published-Keeps engine served_at options db _
        (publish_ruleset-Publishes engine served_at options db);
}

Keeps-Respects : (settings : Settings) → Respects Keeps (λ _. Unit) settings
Keeps-Respects settings = record {
  preorder = Keeps-IsPreorder;
  api_key = λ id input _. api_key-Keeps id input;
  audit = λ now entry _. audit-Keeps now entry;
  flag = λ f _ good. flag-Keeps f good;
  configs = λ input id es _. configs-Keeps input id es;
  change = λ input previous _. change-Keeps input previous;
  touch = λ now t key _. touch-Keeps now t key;
  publish = λ served_at options _. publish-Keeps settings.engine served_at options;
}

-- From a database without flags, after any requests in which the key of a flag is a string where it is
-- given, every flag has a key of the permitted characters, which the separator of the bucketing input is
-- not among. So two flags with different keys have different bucketing inputs, for any two bucket keys,
-- if neither salt has a ":".
pub Reach-inputs_distinct :
    (settings : Settings) (start site : Site) (f g : FlagRecord) (key key' : JsString)
    → start.database.flags ≡ []
    → Reach settings start site
    → In f site.database.flags
    → In g site.database.flags
    → IsColonFree f.salt
    → IsColonFree g.salt
    → f.key ≢ g.key
    → (is_key f.key ≡ true)
      × (is_key g.key ≡ true)
      × (bucketing_input f.key f.salt key ≢ bucketing_input g.key g.salt key')
Reach-inputs_distinct settings start site f g key key' empty reach m n salt salt' differ =
    let kept = Reach-related settings (Keeps-Respects settings) key_usage-Keeps start site reach in
    let good = kept.keys (λ h here. absurd (subst (In h) empty here)) in
    (
      good f m,
      good g n,
      λ same.
          differ
            (bucketing_input-injective f.key f.salt key g.key g.salt key'
              (is_key-IsColonFree f.key (good f m)) salt (is_key-IsColonFree g.key (good g n)) salt'
              same).0,
    )
