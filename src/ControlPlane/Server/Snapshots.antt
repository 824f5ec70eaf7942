-- ===== src/ControlPlane/Server/Snapshots.antt =====
-- The published snapshots over a run of the server: what requests keep true of them.
pub mod Steps
pub mod Served
mod Examples
use flagship_platform.Shared.{
  ◌≡◌, refl, sym, ap, subst, ◌∙◌, ℕ, ◌+◌, ◌≤◌, Bool, true, false, Option, none, some, List, [], ◌∷◌,
  ◌++◌, append-nil, append_assoc, Bool-cases, Option-cases, inl, inr, arith, In, and-true,
  if◌then◌else◌,
}
use flagship_platform.Js.Text.{JsString, str_eq, str_eq_iff}
use flagship_platform.Core.Visibility.{find_server_only_leaks}
use flagship_platform.ControlPlane.Ruleset.Published.{compile_ruleset-payloads}
use flagship_platform.ControlPlane.Ruleset.Compile.{CompiledRuleset}
use flagship_platform.ControlPlane.Database.{
  Database, Environment, SnapshotRow, FlagRecord, FlagConfig, Outcome, done, failed,
}
use flagship_platform.ControlPlane.Database.Effects.{
  IsPreorder, Within, pure-Within, gets-Within, bind-Within,
}
use flagship_platform.ControlPlane.Repository.{Engine, find, update_where}
use flagship_platform.ControlPlane.Repository.Rows.{In-insert, In-update_where, In-find}
use flagship_platform.ControlPlane.Batch.{AuthenticatedKey}
use flagship_platform.ControlPlane.Repository.Reads.{FlagDetail}
use flagship_platform.ControlPlane.Repository.Writes.{
  CreateApiKeyInput, insert_api_key, AuditEntry, write_audit, CreateFlagInput, key_taken,
  insert_flag, insert_config, insert_configs, UpdateFlagConfigInput, update_configs, touch_flag,
  touch_key_usage,
}
use flagship_platform.ControlPlane.Server.{Settings, Supply, bearer}
use flagship_platform.ControlPlane.Server.Sdk.{touched, require_sdk_key}
use flagship_platform.ControlPlane.Server.Effects.{Respects}
use flagship_platform.ControlPlane.Repository.Publish.{
  PublishOptions, PublishResult, is_environment, bumped, snapshot_row, publish_ruleset,
}
use flagship_platform.ControlPlane.Repository.Publish.Outcomes.{
  IsPublished, Publishes, publish_ruleset-Publishes,
}

-- The environment of the snapshot exists and has a version that is no smaller.
abbrev pub IsReached : Database → SnapshotRow → Type 0
IsReached db row =
    (e : Environment) × In e db.environments
    × (e.id ≡ row.environment_id)
    × (row.version ≤ e.version)

-- Every snapshot has a client payload without leaks and a version that its environment has reached.
pub record IsSound (db : Database) : Type 0 where
  pub clean :
      (row : SnapshotRow) → In row db.snapshots → find_server_only_leaks row.client_payload ≡ []
  pub bounded :
      (row : SnapshotRow)
      → In row db.snapshots
      → (e : Environment) × In e db.environments
        × (e.id ≡ row.environment_id)
        × (row.version ≤ e.version)

-- A step that keeps the snapshots sound and only appends to them.
pub record Extends (db db' : Database) : Type 0 where
  pub sound : IsSound db → IsSound db'
  pub appended : (rows : List SnapshotRow) × (db'.snapshots ≡ db.snapshots ++ rows)

pub Extends-IsPreorder : IsPreorder Extends
Extends-IsPreorder = record {
  same = λ db. record { sound = λ h. h; appended = ([], sym (append-nil _)) };
  trans = λ {a} {b} {c} first second.
      let (rows, h) = first.appended in
      let (rows', h') = second.appended in
      record {
        sound = λ s. second.sound (first.sound s);
        appended =
            (rows ++ rows', h' ∙ (ap (λ s. s ++ rows') h ∙ append_assoc a.snapshots rows rows'));
      };
}

-- The other tables do not matter.
pub untouched :
    (db db' : Database)
    → db'.snapshots ≡ db.snapshots
    → db'.environments ≡ db.environments
    → Extends db db'
untouched db db' snapshots environments = record {
  sound = λ s. record {
    clean = λ row m. s.clean row (subst (In row) snapshots m);
    bounded = λ row m.
        let (e, there, same, reached) = s.bounded row (subst (In row) snapshots m) in
        (e, subst (In e) (sym environments) there, same, reached);
  };
  appended = ([], snapshots ∙ sym (append-nil _));
}

-- The raised environment: its id is kept, and its version does not fall.
raised : PublishOptions → Environment → Environment
raised options e = if is_environment options e then record e { version = e.version + 1 } else e

raised_keeps :
    (options : PublishOptions) (e : Environment)
    → ((raised options e).id ≡ e.id) × (e.version ≤ (raised options e).version)
unfolding raised
raised_keeps options e = elim (Bool-cases (is_environment options e)) [
  | inl hit ↦ rw hit (refl, omega arith)
  | inr miss ↦ rw miss (refl, omega arith)
]

raised-In :
    (options : PublishOptions) (e : Environment) (es : List Environment)
    → In e es
    → In
        (raised options e)
        (update_where (is_environment options) (λ e. record e { version = e.version + 1 }) es)
unfolding raised
raised-In options e es m = In-update_where (is_environment options) _ e es m

bumped-IsReached :
    (engine : Engine) (options : PublishOptions) (db : Database) (e : Environment)
    (c : CompiledRuleset) (version : ℕ)
    → In e db.environments
    → is_environment options e ≡ true
    → version ≡ e.version + 1
    → IsReached (bumped options db) (snapshot_row engine options version c)
unfolding bumped snapshot_row raised is_environment
bumped-IsReached engine options db e c version m hit next =
    let moved = raised-In options e db.environments m in
    let id_kept : (raised options e).id ≡ options.environment_id =
      (raised_keeps options e).0 ∙ (str_eq_iff _ _).0 (and-true hit).0 in
    (raised options e, moved, id_kept, rw hit (omega (arith, next)))

pub published-Extends :
    (engine : Engine) (served_at : JsString) (options : PublishOptions) (db db' : Database)
    (p : PublishResult)
    → IsPublished engine served_at options db p db'
    → Extends db db'
unfolding bumped snapshot_row
published-Extends engine served_at options db db' p h =
    let row = snapshot_row engine options p.version p.compiled_ruleset in
    let (there, hit) = In-find (is_environment options) db.environments h.environment h.found in
    subst (Extends db) (sym h.stored) (record {
      sound = λ s. record {
        clean = λ other m. elim (In-insert other row db.snapshots m) [
          | inl old ↦ s.clean other old
          | inr new ↦
              subst (λ r. find_server_only_leaks r.client_payload ≡ []) (sym new)
                (compile_ruleset-payloads _ p.compiled_ruleset h.accepted).2
        ];
        bounded = λ other m. elim (In-insert other row db.snapshots m) [
          | inl old ↦
              let (e, listed, same, reached) = s.bounded other old in
              let (kept, risen) = raised_keeps options e in
              (
                raised options e,
                raised-In options e db.environments listed,
                kept ∙ same,
                omega arith,
              )
          | inr new ↦ subst (IsReached (bumped options db)) (sym new) (
              bumped-IsReached engine options db h.environment p.compiled_ruleset p.version there
                hit h.next)
        ];
      };
      appended = (row ∷ [], refl);
    })
