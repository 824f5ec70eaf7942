-- ===== src/ControlPlane/Repository/Publish/Outcomes.antt =====
-- How `publishRuleset` can end, and what it has then done.
use flagship_platform.Shared.{
  ◌≡◌, refl, ◌≢◌, ◌+◌, false, Option, none, some, [], ◌∷◌, ◌++◌, Bool-cases, arith, Option-cases,
  inl, inr, sym, ◌∙◌, ap, List, Bool, map, if◌then◌else◌, ◌&&◌, ◌==◌, In,
}
use flagship_platform.Js.Text.{JsString, str_eq, str_eq_iff}
use flagship_platform.ControlPlane.Ruleset.Compile.{
  CompiledRuleset, Compiled, refused, compiled, compile_ruleset,
}
use flagship_platform.ControlPlane.Ruleset.Published.{compile_ruleset_ends}
use flagship_platform.ControlPlane.Database.{
  Environment, SnapshotRow, Database, never_compiled, Outcome, done, failed, commit,
  with_transaction,
}
use flagship_platform.ControlPlane.Repository.{Engine, find, update_where}
use flagship_platform.ControlPlane.Repository.Rows.{none-In}
use flagship_platform.ControlPlane.Repository.Publish.{
  PublishOptions, PublishResult, is_environment, bumped, bump_version, version_taken,
  insert_snapshot, ruleset_inputs, snapshot_row, etag_of, store, publish_ruleset,
}

update_where-map :
    {A : Type 0} (p : A → Bool) (change : A → A) (xs : List A)
    → update_where p change xs ≡ map (λ a. if p a then change a else a) xs
unfolding update_where
update_where-map p change [] = refl
update_where-map p change (x ∷ xs) =
    ap (λ rest. (if p x then change x else x) ∷ rest) (update_where-map p change xs)

-- No row of the environment has the version.
untaken :
    (row other : SnapshotRow) (snapshots : List SnapshotRow)
    → version_taken snapshots row ≡ false
    → In other snapshots
    → other.environment_id ≡ row.environment_id
    → other.version ≢ row.version
unfolding version_taken
untaken row other snapshots free listed here same =
    let differ =
      none-In (λ o. str_eq o.environment_id row.environment_id && (o.version == row.version)) other
        snapshots listed free in
    ground (arith, differ, same, (str_eq_iff other.environment_id row.environment_id).1 here)

module _ (engine : Engine) (served_at : JsString) (options : PublishOptions) where
  -- A publish that went through, with the environment's row as it was.
  pub record IsPublished (before : Database) (p : PublishResult) (after : Database) : Type 0 where
    pub environment : Environment
    pub found : find (is_environment options) before.environments ≡ some environment
    pub next : p.version ≡ environment.version + 1
    pub tagged : p.etag ≡ etag_of engine p.compiled_ruleset.server
    pub fresh :
        version_taken before.snapshots (snapshot_row engine options p.version p.compiled_ruleset)
        ≡ false
    pub accepted :
        compile_ruleset (ruleset_inputs engine options p.version served_at (bumped options before))
        ≡ some (compiled p.compiled_ruleset)
    pub stored : after ≡ record (bumped options before) {
      snapshots = before.snapshots ++ snapshot_row engine options p.version p.compiled_ruleset ∷ [];
    }
    -- The table of environments: the tenant's row has a version one higher, each other is as it was.
    pub raised :
        after.environments
        ≡ map
            (λ e.
              if str_eq e.id options.environment_id && str_eq e.tenant_id options.tenant_id
              then record {
                id = e.id;
                tenant_id = e.tenant_id;
                key = e.key;
                name = e.name;
                version = e.version + 1;
              }
              else e)
            before.environments
    -- The table of snapshots has one row more, of a version that the environment had no row of.
    pub row : SnapshotRow
    pub added : after.snapshots ≡ before.snapshots ++ row ∷ []
    pub row_environment : row.environment_id ≡ options.environment_id
    pub row_tenant : row.tenant_id ≡ options.tenant_id
    pub row_version : row.version ≡ environment.version + 1
    pub row_server : row.server_payload ≡ p.compiled_ruleset.server
    pub row_client : row.client_payload ≡ p.compiled_ruleset.client
    pub row_etag : row.etag ≡ p.etag
    pub row_author : row.published_by ≡ options.published_by
    pub unique :
        (s : SnapshotRow)
        → In s before.snapshots
        → s.environment_id ≡ options.environment_id
        → s.version ≢ p.version
    -- No other table has changed.
    pub others :
        record after { environments = before.environments; snapshots = before.snapshots } ≡ before

  published :
      (db : Database) (e : Environment) (c : CompiledRuleset)
      → find (is_environment options) db.environments ≡ some e
      → version_taken db.snapshots (snapshot_row engine options (e.version + 1) c) ≡ false
      → compile_ruleset
          (ruleset_inputs engine options (e.version + 1) served_at (bumped options db))
        ≡ some (compiled c)
      → IsPublished db
          (record { version = e.version + 1; etag = etag_of engine c.server; compiled_ruleset = c })
          (record (bumped options db) {
            snapshots = db.snapshots ++ snapshot_row engine options (e.version + 1) c ∷ [];
          })
  unfolding bumped snapshot_row is_environment
  published db e c found free ran = record {
    environment = e;
    found = found;
    next = refl;
    tagged = refl;
    fresh = free;
    accepted = ran;
    stored = refl;
    raised = update_where-map _ _ db.environments;
    row = snapshot_row engine options (e.version + 1) c;
    added = refl;
    row_environment = refl;
    row_tenant = refl;
    row_version = refl;
    row_server = refl;
    row_client = refl;
    row_etag = refl;
    row_author = refl;
    unique = λ s listed here.
        untaken (snapshot_row engine options (e.version + 1) c) s db.snapshots free listed here;
    others = refl;
  }

  -- What a publish from `before` has done, by how it ended.
  abbrev pub Publishes : (before : Database) → Outcome PublishResult × Database → Type 0
  Publishes before (done p, after) = IsPublished before p after
  Publishes before (failed e, after) = (after ≡ before) × (e ≢ never_compiled)

  store-Publishes :
      (db : Database) (e : Environment) (result : Option Compiled)
      → find (is_environment options) db.environments ≡ some e
      → compile_ruleset
          (ruleset_inputs engine options (e.version + 1) served_at (bumped options db))
        ≡ result
      → Publishes db (commit db (store engine options (e.version + 1) result (bumped options db)))
  unfolding store insert_snapshot bumped
  store-Publishes db e none found ran =
      let (result, ends) = compile_ruleset_ends _ in
      let never : none ≡ some result = sym ran ∙ ends in absurd (ground arith)
  store-Publishes db e (some (refused problems)) found ran = (refl, λ same. cc)
  store-Publishes db e (some (compiled c)) found ran =
      elim (Bool-cases
        (version_taken db.snapshots (snapshot_row engine options (e.version + 1) c))) [
          | inl taken ↦ rw taken (refl, λ same. cc)
          | inr free ↦ rw free (published db e c found free ran)
        ]

  -- `publishRuleset` ends in one of two ways. It throws, and the database is as it was; or it
  -- returns a version and payloads that `compileRuleset` accepts for that version. Then the version is
  -- one more than that of the tenant's environment, whose row is raised to it while each other row of the
  -- table is as it was; the snapshots have one row more, with the environment, the tenant, the version,
  -- the payloads, the etag and the author, and had none of this environment and version; and the other
  -- tables have not changed. Compilation always ends.
  pub publish_ruleset-Publishes :
      (db : Database) → Publishes db (publish_ruleset engine served_at options db)
  unfolding publish_ruleset with_transaction bump_version
  publish_ruleset-Publishes db =
      elim (Option-cases (find (is_environment options) db.environments)) [
        | inl missing ↦
            rw (publish_ruleset, with_transaction, bump_version, missing) (refl, λ same. cc)
        | inr (e, found) ↦
            rw (publish_ruleset, with_transaction, bump_version, found)
              (store-Publishes db e _ found refl)
      ]

  -- A publish that is accepted, of a version that is free, goes through.
  pub publish_ruleset_goes :
      (db : Database) (e : Environment) (c : CompiledRuleset)
      → find (is_environment options) db.environments ≡ some e
      → compile_ruleset
          (ruleset_inputs engine options (e.version + 1) served_at (bumped options db))
        ≡ some (compiled c)
      → version_taken db.snapshots (snapshot_row engine options (e.version + 1) c) ≡ false
      → let p : PublishResult = record {
        version = e.version + 1;
        etag = etag_of engine c.server;
        compiled_ruleset = c;
      } in
        (db' : Database) × (publish_ruleset engine served_at options db ≡ (done p, db'))
        × IsPublished db p db'
  unfolding publish_ruleset with_transaction bump_version store insert_snapshot bumped
  publish_ruleset_goes db e c found accepted free = (
    record (bumped options db) {
      snapshots = db.snapshots ++ snapshot_row engine options (e.version + 1) c ∷ [];
    },
    rw (publish_ruleset, with_transaction, bump_version, found)
        (rw accepted (rw (store, insert_snapshot, free) refl)),
    published db e c found free accepted,
  )
