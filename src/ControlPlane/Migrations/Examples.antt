-- ===== src/ControlPlane/Migrations/Examples.antt =====
-- Two migrations and a file that is none.
use flagship_platform.Shared.{◌≡◌, refl, true, Option, some, List, [], ◌∷◌, filter, All}
use flagship_platform.Js.Text.{JsString, js, str_lt, str_eq, ends_with}
use flagship_platform.Js.Set.{has}
use flagship_platform.ControlPlane.Repository.{order_by, insert_by}
use flagship_platform.ControlPlane.Migrations.{
  Schema, ran, run_file, with_ran, run_files, migration_files, migrate, migrate_again,
}

-- A schema that records what was executed.
abbrev record_file : JsString → List JsString → Option (List JsString)
record_file file executed = some (file ∷ executed)

abbrev directory : List JsString
directory = js "002_more.sql" ∷ js "readme.md" ∷ js "001_initial.sql" ∷ []

abbrev fresh : Schema (List JsString)
fresh = record { applied = []; tables = [] }

abbrev migrated : Schema (List JsString)
migrated = record {
  applied = js "001_initial.sql" ∷ js "002_more.sql" ∷ [];
  tables = js "002_more.sql" ∷ js "001_initial.sql" ∷ [];
}

first_run :
    migrate record_file directory fresh
    ≡ (ran (js "001_initial.sql" ∷ js "002_more.sql" ∷ []), migrated)
unfolding migrate migration_files run_files run_file with_ran order_by insert_by filter ends_with
    str_eq str_lt has
first_run = refl

migrate_again_example :
    All (λ file. has migrated.applied file ≡ true) (migration_files record_file directory)
    × (migrate record_file directory migrated ≡ (ran [], migrated))
migrate_again_example =
    migrate_again record_file directory fresh migrated
      (js "001_initial.sql" ∷ js "002_more.sql" ∷ []) first_run
