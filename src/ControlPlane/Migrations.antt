-- ===== src/ControlPlane/Migrations.antt =====
-- apps/control-plane/src/db.ts: `migrate`. What a file's SQL does to the schema is a parameter, `none`
-- when it throws. The names in a directory are distinct, so that the insert into `schema_migrations`
-- does not meet a taken name.
mod Examples
use flagship_platform.Shared.{
  subst, ◌≡◌, refl, sym, ap, ◌∙◌, Bool, true, false, not, Option, none, some, List, [], ◌∷◌, ◌++◌,
  if◌then◌else◌, filter, arith, All, All-filter, Bool-cases, Option-cases, inl, inr, ◌||◌,
}
use flagship_platform.Js.Text.{JsString, js, str_lt, ends_with, str_eq, str_eq_refl}
use flagship_platform.Js.Set.{JsSet, has, has-append}
use flagship_platform.ControlPlane.Repository.{order_by}

-- `schema_migrations` and the rest of the schema.
pub record Schema (S : Type 0) : Type 0 where
  pub applied : List JsString
  pub tables : S

pub data Migrated : Type 0 where
  ran : List JsString → Migrated
  migration_failed : (file : JsString) → Migrated

module _ {S : Type 0} (execute : (file : JsString) → S → Option S) where
  -- One transaction.
  unfoldable pub run_file : (file : JsString) → Schema S → Option (Schema S)
  run_file file schema = elim (execute file schema.tables) [
    | none ↦ none
    | some tables ↦ some (record { applied = schema.applied ++ file ∷ []; tables = tables })
  ]

  -- ran.push(file)
  unfoldable pub with_ran : (file : JsString) → Migrated × Schema S → Migrated × Schema S
  with_ran file (ran files, schema) = (ran (file ∷ files), schema)
  with_ran file (migration_failed other, schema) = (migration_failed other, schema)

  -- The loop over the files; `applied` is the set that was read before it.
  unfoldable pub run_files : (applied : JsSet) → List JsString → Schema S → Migrated × Schema S
  run_files applied [] schema = (ran [], schema)
  run_files applied (file ∷ files) schema =
      let skipped = run_files applied files schema in
      let next = elim (run_file file schema) as (λ _. Migrated × Schema S) [
        | none ↦ (migration_failed file, schema)
        | some schema' ↦ with_ran file (run_files applied files schema')
      ] in
      if has applied file then skipped else next

  unfoldable pub migration_files : (directory : List JsString) → List JsString
  migration_files directory =
      order_by (λ a b. not (str_lt b a)) (filter (λ file. ends_with file (js ".sql")) directory)

  unfoldable pub migrate : (directory : List JsString) → Schema S → Migrated × Schema S
  migrate directory schema = run_files schema.applied (migration_files directory) schema

  -- What the files leave: all of them are applied, and what was applied still is.
  abbrev IsDone : List JsString → Schema S → Migrated × Schema S → Type 0
  IsDone files before (ran names, after) =
      All (λ file. has after.applied file ≡ true) files
      × ((k : JsString) → has before.applied k ≡ true → has after.applied k ≡ true)
  IsDone files before (migration_failed file, after) = Unit

  with_ran-IsDone :
      (file : JsString) (files : List JsString) (before next : Schema S)
      (result : Migrated × Schema S)
      → ((k : JsString) → has before.applied k ≡ true → has next.applied k ≡ true)
      → has next.applied file ≡ true
      → IsDone files next result
      → IsDone (file ∷ files) before (with_ran file result)
  unfolding with_ran
  with_ran-IsDone file files before next (ran names, after) grows there (all_done, kept) =
      ((kept file there, all_done), λ k h. kept k (grows k h))
  with_ran-IsDone file files before next (migration_failed other, after) grows there h = tt

  skip-IsDone :
      (file : JsString) (files : List JsString) (before : Schema S) (result : Migrated × Schema S)
      → has before.applied file ≡ true
      → IsDone files before result
      → IsDone (file ∷ files) before result
  skip-IsDone file files before (ran names, after) there (all_done, kept) =
      ((kept file there, all_done), kept)
  skip-IsDone file files before (migration_failed other, after) there h = tt

  has-insert :
      (names : List JsString) (file k : JsString)
      → has names k ≡ true
      → has (names ++ file ∷ []) k ≡ true
  has-insert names file k h = ground (arith, has-append names (file ∷ []) k)

  has_new : (names : List JsString) (file : JsString) → has (names ++ file ∷ []) file ≡ true
  unfolding has
  has_new names file = ground (arith, has-append names (file ∷ []) file, str_eq_refl file)

  run_files-IsDone :
      (applied : JsSet) (files : List JsString) (before : Schema S)
      → ((k : JsString) → has applied k ≡ true → has before.applied k ≡ true)
      → IsDone files before (run_files applied files before)
  unfolding run_files run_file
  run_files-IsDone applied [] before known = (tt, λ k h. h)
  run_files-IsDone applied (file ∷ files) before known = elim (Bool-cases (has applied file)) [
    | inl listed ↦
        rw (run_files, listed)
          (skip-IsDone file files before _ (known file listed)
            (run_files-IsDone applied files before known))
    | inr fresh ↦ elim (Option-cases (execute file before.tables)) [
      | inl thrown ↦ rw (run_files, fresh, run_file, thrown) tt
      | inr (tables, done) ↦
          let next : Schema S = record { applied = before.applied ++ file ∷ []; tables = tables } in
          let grows = λ (k : JsString) (h : has before.applied k ≡ true).
            has-insert before.applied file k h in
          rw (run_files, fresh, run_file, done)
            (with_ran-IsDone file files before next _ grows (has_new before.applied file)
              (run_files-IsDone applied files next (λ k h. grows k (known k h))))
    ]
  ]

  run_files-skips :
      (applied : JsSet) (files : List JsString) (schema : Schema S)
      → All (λ file. has applied file ≡ true) files
      → run_files applied files schema ≡ (ran [], schema)
  unfolding run_files
  run_files-skips applied [] schema h = refl
  run_files-skips applied (file ∷ files) schema (listed, rest) =
      rw (run_files, listed) (run_files-skips applied files schema rest)

  -- When `migrate` has run without a failure, running it again on the same directory applies nothing and
  -- changes nothing, and every file of the directory is recorded as applied.
  pub migrate_again :
      (directory : List JsString) (before after : Schema S) (names : List JsString)
      → migrate directory before ≡ (ran names, after)
      → All (λ file. has after.applied file ≡ true) (migration_files directory)
        × (migrate directory after ≡ (ran [], after))
  unfolding migrate
  migrate_again directory before after names h =
      let all_done =
        (subst (IsDone (migration_files directory) before) h (
          run_files-IsDone before.applied (migration_files directory) before
            (λ k known. known))).0 in
      (all_done, run_files-skips after.applied (migration_files directory) after all_done)
