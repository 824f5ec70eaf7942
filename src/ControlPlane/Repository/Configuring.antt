-- ===== src/ControlPlane/Repository/Configuring.antt =====
-- apps/control-plane/src/repository.ts: what `getFlag` reads after `createFlag`.
pub mod Changed
use flagship_platform.Shared.{
  ◌≡◌, refl, sym, ap, subst, ◌∙◌, ℕ, Bool, true, false, not, ◌&&◌, Option, some, List, [], ◌∷◌,
  ◌++◌, Option-cases, inl, inr, arith, filter, if◌then◌else◌, any, In, ◌⊎◌, and-true, map,
  append-nil, append_assoc,
}
use flagship_platform.Js.Text.{JsString, str_eq, str_eq_iff, str_eq_refl}
use flagship_platform.ControlPlane.Database.{
  Database, Environment, FlagRecord, FlagConfig, Outcome, done, commit, with_transaction,
}
use flagship_platform.ControlPlane.Repository.{find, update_where, has_tenant}
use flagship_platform.ControlPlane.Repository.Rows.{
  filter-append, find-insert, In-find, any-In, none-In, find-update_where, filter-update_where,
}
use flagship_platform.ControlPlane.Repository.Newest.{In-filtered}
use flagship_platform.ControlPlane.Repository.Reads.{
  config_of, coalesce, joined, flags_of, FlagDetail, detail_of, get_flag,
}
use flagship_platform.ControlPlane.Repository.Writes.{
  CreateFlagInput, new_flag, key_taken, insert_flag, new_config, insert_config, insert_configs,
  environments_of, create_flag, UpdateFlagConfigInput, given_or, is_config_of, changed_config,
  update_configs, touch_flag, update_found, update_flag_config,
}

abbrev pub has_key : JsString → FlagRecord → Bool
has_key key f = str_eq f.key key

abbrev pub of_pair : (environment_id flag_id : JsString) → FlagConfig → Bool
of_pair environment_id flag_id c =
    str_eq c.flag_id flag_id && str_eq c.environment_id environment_id

-- The columns that the join gives `getFlag`.
pub get_flag-found :
    (db : Database) (t e key : JsString) (f : FlagRecord)
    → find (has_key key) (flags_of db t) ≡ some f
    → get_flag db t e key ≡ some (detail_of f (joined db e f))
unfolding get_flag
get_flag-found db t e key f found = rw (get_flag, found) refl

-- What the loop over the environments inserts.
insert_configs-configs :
    (input : CreateFlagInput) (id : JsString) (es : List Environment) (db : Database)
    → insert_configs input id es db
      ≡ (done tt, record db { configs = db.configs ++ map (new_config input id) es })
unfolding insert_configs insert_config
insert_configs-configs input id [] db =
    ap (λ cs. (done tt, record db { configs = cs })) (sym (append-nil db.configs))
insert_configs-configs input id (e ∷ es) db =
    let added = new_config input id e in
    insert_configs-configs input id es (record db { configs = db.configs ++ added ∷ [] })
    ∙ ap (λ cs. (done tt, record db { configs = cs }))
        (append_assoc db.configs (added ∷ []) (map (new_config input id) es))

-- The database after a flag was created.
abbrev with_flag : (now : ℕ) → (id salt : JsString) → CreateFlagInput → Database → Database
with_flag now id salt input db = record db {
  flags = db.flags ++ new_flag now id salt input ∷ [];
  configs = db.configs ++ map (new_config input id) (environments_of input.tenant_id db);
}

create_flag_goes :
    (now : ℕ) (id salt : JsString) (input : CreateFlagInput) (db : Database)
    → key_taken db input.tenant_id input.key ≡ false
    → has_tenant db input.tenant_id ≡ true
    → create_flag now id salt input db ≡ (done tt, with_flag now id salt input db)
unfolding create_flag with_transaction insert_flag new_flag environments_of
create_flag_goes now id salt input db free known =
    rw (create_flag, with_transaction, insert_flag, free, known)
      (ap (commit db) (
        insert_configs-configs input id (environments_of input.tenant_id db)
          (record db { flags = db.flags ++ new_flag now id salt input ∷ [] })))

In-append : {A : Type 0} (a : A) (xs ys : List A) → In a (xs ++ ys) → In a xs ⊎ In a ys
In-append a [] ys m = inr m
In-append a (x ∷ xs) ys (inl same) = inl (inl same)
In-append a (x ∷ xs) ys (inr m) = elim (In-append a xs ys m) [
  | inl left ↦ inl (inr left)
  | inr right ↦ inr right
]

new_config-disabled :
    (input : CreateFlagInput) (id : JsString) (es : List Environment) (c : FlagConfig)
    → In c (map (new_config input id) es)
    → c.enabled ≡ false
unfolding new_config
new_config-disabled input id [] c m = absurd m
new_config-disabled input id (e ∷ es) c (inl same) = ap (λ x. x.enabled) same
new_config-disabled input id (e ∷ es) c (inr m) = new_config-disabled input id es c m

-- No row of the new id is older than the flag, and the rows inserted with it are disabled.
joined-disabled :
    (now : ℕ) (id salt e : JsString) (input : CreateFlagInput) (db : Database)
    → ((c : FlagConfig) → In c db.configs → str_eq c.flag_id id ≡ false)
    → (joined (with_flag now id salt input db) e (new_flag now id salt input)).enabled ≡ false
unfolding joined config_of new_flag
joined-disabled now id salt e input db fresh =
    let rows = db.configs ++ map (new_config input id) (environments_of input.tenant_id db) in
    elim (Option-cases (find (of_pair e id) rows)) [
      | inl none_there ↦ rw (joined, config_of, none_there) refl
      | inr (c, found) ↦
          let (there, hit) = In-find (of_pair e id) rows c found in
          let off : c.enabled ≡ false = elim (In-append c db.configs _ there) [
            | inl old ↦
                let it : str_eq c.flag_id id ≡ true = (and-true hit).0 in
                let other : str_eq c.flag_id id ≡ false = fresh c old in absurd (ground arith)
            | inr new ↦ new_config-disabled input id _ c new
          ] in
          rw (joined, config_of, found) off
    ]

flags_of-insert :
    (db : Database) (t : JsString) (f : FlagRecord)
    → f.tenant_id ≡ t
    → f.archived ≡ false
    → filter (λ g. str_eq g.tenant_id t && not g.archived) (db.flags ++ f ∷ [])
      ≡ flags_of db t ++ f ∷ []
unfolding flags_of filter
flags_of-insert db t f mine live =
    let hit : (str_eq f.tenant_id t && not f.archived) ≡ true = rw (mine, live, str_eq_refl) refl in
    filter-append _ db.flags (f ∷ []) ∙ rw hit refl

other_key :
    (db : Database) (t key : JsString) (g : FlagRecord)
    → key_taken db t key ≡ false
    → In g (flags_of db t)
    → has_key key g ≡ false
unfolding flags_of key_taken
other_key db t key g free m =
    let (there, mine) = In-filtered (λ h. str_eq h.tenant_id t && not h.archived) g db.flags m in
    let it = (and-true {a = str_eq g.tenant_id t} {b = not g.archived} mine).0 in
    let missed : (str_eq g.tenant_id t && str_eq g.key key) ≡ false =
      none-In (λ f. str_eq f.tenant_id t && str_eq f.key key) g db.flags there free in
    ground arith

-- A flag whose key is free, of a tenant that exists, is created; read in any environment, with a row or
-- without, it is disabled, and it has the salt, the key and the variations that it was created with. The
-- id is new: no configuration refers to it.
pub create_flag-disabled :
    (now : ℕ) (id salt e : JsString) (input : CreateFlagInput) (db : Database)
    → key_taken db input.tenant_id input.key ≡ false
    → has_tenant db input.tenant_id ≡ true
    → ((c : FlagConfig) → In c db.configs → str_eq c.flag_id id ≡ false)
    → let (result, db') = create_flag now id salt input db in
      (result ≡ done tt)
      × ((flag : FlagDetail) × (get_flag db' input.tenant_id e input.key ≡ some flag)
          × (flag.enabled ≡ false)
          × (flag.salt ≡ salt)
          × (flag.key ≡ input.key)
          × (flag.variations ≡ input.variations))
unfolding flags_of new_flag detail_of key_taken
create_flag-disabled now id salt e input db free known fresh =
    let f = new_flag now id salt input in
    let db' = with_flag now id salt input db in
    let others = λ (g : FlagRecord) (m : In g (flags_of db input.tenant_id)).
      other_key db input.tenant_id input.key g free m in
    let found : find (has_key input.key) (flags_of db' input.tenant_id) ≡ some f =
      ap (find (has_key input.key)) (flags_of-insert db input.tenant_id f refl refl)
      ∙ find-insert (has_key input.key) (flags_of db input.tenant_id) f others
          (str_eq_refl input.key) in
    subst
      (λ (r : Outcome (Unit {0}) × Database).
        (r.0 ≡ done tt)
        × ((flag : FlagDetail) × (get_flag r.1 input.tenant_id e input.key ≡ some flag)
            × (flag.enabled ≡ false)
            × (flag.salt ≡ salt)
            × (flag.key ≡ input.key)
            × (flag.variations ≡ input.variations)))
      (sym (create_flag_goes now id salt input db free known))
      (
        refl,
        (
          detail_of f (joined db' e f),
          get_flag-found db' input.tenant_id e input.key f found,
          joined-disabled now id salt e input db fresh,
          refl,
          refl,
          refl,
        ),
      )
