-- ===== src/ControlPlane/Repository/Configuring/Changed.antt =====
-- apps/control-plane/src/repository.ts: what `getFlag` reads after `updateFlagConfig`.
use flagship_platform.Shared.{
  ◌≡◌, refl, sym, ap, subst, ◌∙◌, ℕ, Bool, true, not, ◌&&◌, Option, none, some, arith, filter,
  if◌then◌else◌, any, In, and-true,
}
use flagship_platform.Js.Text.{str_eq, str_eq_iff, str_eq_refl}
use flagship_platform.ControlPlane.Database.{Database, FlagRecord, FlagConfig, Outcome, done}
use flagship_platform.ControlPlane.Repository.{find, update_where}
use flagship_platform.ControlPlane.Repository.Rows.{
  In-find, any-In, find-update_where, find-update_where-none, filter-update_where,
}
use flagship_platform.ControlPlane.Repository.Newest.{In-filtered}
use flagship_platform.ControlPlane.Repository.Reads.{
  config_of, coalesce, joined, flags_of, FlagDetail, detail_of, get_flag,
}
use flagship_platform.ControlPlane.Repository.Writes.{
  UpdateFlagConfigInput, given_or, is_config_of, changed_config, update_configs, touch_flag,
  update_found, update_flag_config,
}
use flagship_platform.ControlPlane.Repository.Configuring.{has_key, of_pair, get_flag-found}

-- The configuration that a change asks for, and the time of it.
unfoldable pub merged : (now : ℕ) → UpdateFlagConfigInput → FlagDetail → FlagDetail
merged now input previous = record previous {
  enabled = given_or input.enabled previous.enabled;
  default_variation_key = given_or input.default_variation_key previous.default_variation_key;
  off_variation_key = given_or input.off_variation_key previous.off_variation_key;
  rules = given_or input.rules previous.rules;
  updated_at = now;
}

-- The database after a flag that was found is changed.
abbrev pub with_change : (now : ℕ) → UpdateFlagConfigInput → FlagDetail → Database → Database
with_change now input previous db = record db {
  configs = update_where (is_config_of db input) (changed_config input previous) db.configs;
  flags =
      update_where (λ f. str_eq f.tenant_id input.tenant_id && str_eq f.key input.key)
        (λ f. record f { updated_at = now }) db.flags;
}

update_flag_config_goes :
    (now : ℕ) (input : UpdateFlagConfigInput) (db : Database) (previous : FlagDetail)
    → get_flag db input.tenant_id input.environment_id input.key ≡ some previous
    → update_flag_config now input db ≡ (done (some previous), with_change now input previous db)
unfolding update_flag_config update_found update_configs touch_flag
update_flag_config_goes now input db previous found = rw (update_flag_config, found) refl

abbrev of_flag : UpdateFlagConfigInput → FlagRecord → Bool
of_flag input f = str_eq f.tenant_id input.tenant_id && str_eq f.key input.key

abbrev at_time : ℕ → FlagRecord → FlagRecord
at_time now f = record f { updated_at = now }

-- The flag that is found after the change is the one found before it, with a new time.
changed_flag :
    (now : ℕ) (input : UpdateFlagConfigInput) (db : Database) (f : FlagRecord)
    → find (has_key input.key) (flags_of db input.tenant_id) ≡ some f
    → find (has_key input.key) (
        filter
          (λ g. str_eq g.tenant_id input.tenant_id && not g.archived)
          (update_where (of_flag input) (at_time now) db.flags))
      ≡ some (at_time now f)
unfolding flags_of
changed_flag now input db f found =
    let live = λ (g : FlagRecord). str_eq g.tenant_id input.tenant_id && not g.archived in
    let (listed, keyed) = In-find (has_key input.key) (filter live db.flags) f found in
    let (_, mine) = In-filtered live f db.flags listed in
    let its = (and-true {a = str_eq f.tenant_id input.tenant_id} {b = not f.archived} mine).0 in
    let hit : of_flag input f ≡ true = ground arith in
    let moved : (if of_flag input f then at_time now f else f) ≡ at_time now f = rw hit refl in
    ap (find (has_key input.key))
      (filter-update_where live (of_flag input) (at_time now) (λ g. refl) db.flags)
    ∙ (find-update_where (has_key input.key) (of_flag input) (at_time now) (λ g. refl)
          (filter live db.flags) f found
        ∙ ap some moved)

changed_row :
    (input : UpdateFlagConfigInput) (previous : FlagDetail) (db : Database) (f : FlagRecord)
    (c : FlagConfig)
    → In f db.flags
    → f.key ≡ input.key
    → config_of db input.environment_id f.id ≡ some c
    → c.tenant_id ≡ input.tenant_id
    → find
        (of_pair input.environment_id f.id)
        (update_where (is_config_of db input) (changed_config input previous) db.configs)
      ≡ some (changed_config input previous c)
unfolding config_of is_config_of changed_config
changed_row input previous db f c listed keyed configured mine =
    let (_, hit) = In-find (of_pair input.environment_id f.id) db.configs c configured in
    let of_it : str_eq c.flag_id f.id ≡ true = (and-true hit).0 in
    let there : str_eq c.environment_id input.environment_id ≡ true = (and-true hit).1 in
    let known : any (λ g. str_eq c.flag_id g.id && str_eq g.key input.key) db.flags ≡ true =
      any-In _ f db.flags listed (rw (of_it, keyed, str_eq_refl) refl) in
    let meant : is_config_of db input c ≡ true = rw (known, mine, there, str_eq_refl) refl in
    find-update_where (of_pair input.environment_id f.id) (is_config_of db input)
      (changed_config input previous) (λ x. refl) db.configs c configured
    ∙ ap some (rw meant refl)

-- The configuration row, where there is one, is of the tenant.
abbrev pub IsOfTenant : UpdateFlagConfigInput → Option FlagConfig → Type 0
IsOfTenant input none = Unit
IsOfTenant input (some c) = c.tenant_id ≡ input.tenant_id

-- What a change makes of a flag: nothing but its time where the environment has no row for it.
abbrev pub reread : (now : ℕ) → UpdateFlagConfigInput → FlagDetail → Option FlagConfig → FlagDetail
reread now input previous none = record previous { updated_at = now }
reread now input previous (some c) = merged now input previous

-- The columns of the flag after the change.
changed_detail :
    (now : ℕ) (input : UpdateFlagConfigInput) (db : Database) (f : FlagRecord)
    (config : Option FlagConfig)
    → In f db.flags
    → f.key ≡ input.key
    → config_of db input.environment_id f.id ≡ config
    → IsOfTenant input config
    → let previous = detail_of f (coalesce config) in
      detail_of
        (at_time now f)
        (joined (with_change now input previous db) input.environment_id (at_time now f))
      ≡ reread now input previous config
unfolding joined config_of detail_of merged changed_config
changed_detail now input db f none there keyed missing mine =
    let previous = detail_of f (coalesce none) in
    ap (λ o. detail_of (at_time now f) (coalesce o))
      (find-update_where-none (of_pair input.environment_id f.id) (is_config_of db input)
        (changed_config input previous) (λ x. refl) db.configs missing)
changed_detail now input db f (some c) there keyed configured mine =
    ap (λ o. detail_of (at_time now f) (coalesce o))
      (changed_row input (detail_of f (coalesce (some c))) db f c there keyed configured mine)

-- A flag of the tenant that is not archived, with or without a row of its configuration in the
-- environment, which is the tenant's: the change returns the flag as it was. Reading it again gives,
-- where there is a row, the fields that the change asks for, the old values of those that it leaves
-- out, and the time of the change; where there is none, the flag as it was with the time of the change,
-- so that the fields that were asked for are lost.
pub update_flag_config-read :
    (now : ℕ) (input : UpdateFlagConfigInput) (db : Database) (f : FlagRecord)
    (config : Option FlagConfig)
    → find (has_key input.key) (flags_of db input.tenant_id) ≡ some f
    → config_of db input.environment_id f.id ≡ config
    → IsOfTenant input config
    → let previous = detail_of f (coalesce config) in
      let (result, db') = update_flag_config now input db in
      (result ≡ done (some previous))
      × (get_flag db' input.tenant_id input.environment_id input.key
          ≡ some (reread now input previous config))
unfolding flags_of joined
update_flag_config-read now input db f config found configured mine =
    let previous = detail_of f (coalesce config) in
    let db' = with_change now input previous db in
    let (listed, keyed) = In-find (has_key input.key) (flags_of db input.tenant_id) f found in
    let (there, _) = In-filtered _ f db.flags listed in
    let before : get_flag db input.tenant_id input.environment_id input.key ≡ some previous =
      get_flag-found db input.tenant_id input.environment_id input.key f found
      ∙ ap (λ o. some (detail_of f (coalesce o))) configured in
    let after : get_flag db' input.tenant_id input.environment_id input.key
        ≡ some (reread now input previous config) =
      get_flag-found db' input.tenant_id input.environment_id input.key (at_time now f)
        (changed_flag now input db f found)
      ∙ ap some
          (changed_detail now input db f config there ((str_eq_iff _ _).0 keyed) configured mine) in
    subst
      (λ (r : Outcome (Option FlagDetail) × Database).
        (r.0 ≡ done (some previous))
        × (get_flag r.1 input.tenant_id input.environment_id input.key
            ≡ some (reread now input previous config)))
      (sym (update_flag_config_goes now input db previous before)) (refl, after)
