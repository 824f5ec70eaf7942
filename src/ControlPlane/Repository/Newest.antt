-- ===== src/ControlPlane/Repository/Newest.antt =====
-- apps/control-plane/src/repository.ts: what `latestSnapshot` finds in the table.
use flagship_platform.Shared.{
  ◌≡◌, refl, sym, ap, subst, ◌∙◌, ◌≤◌, ◌<◌, Bool, true, some, List, [], ◌∷◌, ◌++◌, ltb, ltb→lt,
  Bool-cases, Option-cases, inl, inr, arith, In, In-filter, filter, if◌then◌else◌, ◌⊎◌,
}
use flagship_platform.Js.Text.{JsString, js, str_eq, str_eq_iff}
use flagship_platform.Core.Visibility.{KeyKind}
use flagship_platform.ControlPlane.Database.{Database, SnapshotRow}
use flagship_platform.ControlPlane.Repository.Rows.{filter-append}
use flagship_platform.ControlPlane.Repository.Reads.{
  LatestSnapshot, kind_name, payload_for, newest, latest_snapshot,
}

pub In-filtered :
    {A : Type 0} (p : A → Bool) (a : A) (xs : List A) → In a (filter p xs) → In a xs × (p a ≡ true)
unfolding filter
In-filtered p a [] m = absurd m
In-filtered p a (x ∷ xs) m = elim (Bool-cases (p x)) [
  | inl kept ↦
      let m' : In a (x ∷ filter p xs) =
        subst (λ b. In a (if b then x ∷ filter p xs else filter p xs)) kept m in
      elim m' [
        | inl same ↦ (inl same, ap p same ∙ kept)
        | inr rest ↦ let (there, hit) = In-filtered p a xs rest in (inr there, hit)
      ]
  | inr dropped ↦
      let m' : In a (filter p xs) =
        subst (λ b. In a (if b then x ∷ filter p xs else filter p xs)) dropped m in
      let (there, hit) = In-filtered p a xs m' in (inr there, hit)
]

newest-In : (rows : List SnapshotRow) (row : SnapshotRow) → newest rows ≡ some row → In row rows
unfolding newest
newest-In [] row h = absurd (ground arith)
newest-In (r ∷ rows) row h = elim (Option-cases (newest rows)) [
  | inl empty ↦ inl (ground arith)
  | inr (other, found) ↦ elim (Bool-cases (ltb r.version other.version)) [
    | inl older ↦ inr (newest-In rows row (ground arith))
    | inr kept ↦ inl (ground arith)
  ]
]

-- The newest of a table and one more row that is newer than each of it.
newest-insert :
    (rows : List SnapshotRow) (row : SnapshotRow)
    → ((r : SnapshotRow) → In r rows → r.version < row.version)
    → newest (rows ++ row ∷ []) ≡ some row
unfolding newest
newest-insert [] row h = refl
newest-insert (r ∷ rows) row h =
    let found = newest-insert rows row (λ r m. h r (inr m)) in
    let older : ltb r.version row.version ≡ true = ground (arith, h r (inl refl)) in
    rw found (rw older refl)

-- Each row of the table is at most as new.
newest-reaches :
    (rows : List SnapshotRow) (r : SnapshotRow)
    → In r rows
    → (row : SnapshotRow) × (newest rows ≡ some row) × (r.version ≤ row.version)
unfolding newest
newest-reaches [] r m = absurd m
newest-reaches (x ∷ rows) r m = elim (Option-cases (newest rows)) [
  | inl empty ↦ elim m [
    | inl same ↦ (x, rw empty refl, subst (λ y. y.version ≤ x.version) (sym same) (omega arith))
    | inr rest ↦ let (row, found, _) = newest-reaches rows r rest in absurd (ground arith)
  ]
  | inr (other, found) ↦
      let reached : r.version ≤ other.version ⊎ (r ≡ x) = elim m [
        | inl same ↦ inr same
        | inr rest ↦ let (row, found', reached) = newest-reaches rows r rest in inl (ground arith)
      ] in
      elim (Bool-cases (ltb x.version other.version)) [
        | inl older ↦ (
          other,
          rw (found, older) refl,
          elim reached [
            | inl below ↦ below
            | inr same ↦
                subst (λ y. y.version ≤ other.version) (sym same)
                  (let below = ltb→lt _ _ older in omega arith)
          ],
        )
        | inr kept ↦ (
          x,
          rw (found, kept) refl,
          elim reached [
            | inl below ↦ ground arith
            | inr same ↦ subst (λ y. y.version ≤ x.version) (sym same) (omega arith)
          ],
        )
      ]
]

In-left : {A : Type 0} (a : A) (xs ys : List A) → In a xs → In a (xs ++ ys)
In-left a [] ys m = absurd m
In-left a (x ∷ xs) ys (inl same) = inl same
In-left a (x ∷ xs) ys (inr m) = inr (In-left a xs ys m)

abbrev of_environment : JsString → SnapshotRow → Bool
of_environment environment_id row = str_eq row.environment_id environment_id

module _ (environment_id : JsString) (kind : KeyKind) where
  -- What a row is served as.
  unfoldable pub served_as : SnapshotRow → LatestSnapshot
  served_as row = record {
    version = row.version;
    etag = js "\"" ++ (kind_name kind ++ (js "-" ++ (row.etag ++ js "\"")));
    payload = payload_for kind row;
  }

  latest_snapshot-newest :
      (db : Database) (row : SnapshotRow)
      → newest (filter (of_environment environment_id) db.snapshots) ≡ some row
      → latest_snapshot db environment_id kind ≡ some (served_as row)
  unfolding latest_snapshot served_as
  latest_snapshot-newest db row found = rw (latest_snapshot, found) refl

  -- A snapshot that is found is a row of the environment.
  pub latest_snapshot-row :
      (db : Database) (s : LatestSnapshot)
      → latest_snapshot db environment_id kind ≡ some s
      → (row : SnapshotRow) × In row db.snapshots
        × (row.environment_id ≡ environment_id)
        × (s ≡ served_as row)
  unfolding latest_snapshot served_as
  latest_snapshot-row db s h =
      elim (Option-cases (newest (filter (of_environment environment_id) db.snapshots))) [
        | inl empty ↦ absurd (ground arith)
        | inr (row, found) ↦
            let (there, mine) = In-filtered _ row db.snapshots (newest-In _ row found) in
            (row, there, (str_eq_iff _ _).0 mine, ground arith)
      ]

  -- Rows that are added do not make the version that is served smaller.
  pub latest_snapshot-append :
      (db db' : Database) (more : List SnapshotRow) (s : LatestSnapshot)
      → db'.snapshots ≡ db.snapshots ++ more
      → latest_snapshot db environment_id kind ≡ some s
      → (later : LatestSnapshot) × (latest_snapshot db' environment_id kind ≡ some later)
        × (s.version ≤ later.version)
  unfolding latest_snapshot served_as
  latest_snapshot-append db db' more s grown h =
      let mine = of_environment environment_id in
      let (row, there, of_it, same) = latest_snapshot-row db s h in
      let listed : In row db'.snapshots =
        subst (In row) (sym grown) (In-left row db.snapshots more there) in
      let kept = In-filter mine row db'.snapshots listed ((str_eq_iff _ _).1 of_it) in
      let (newer, found, reached) = newest-reaches (filter mine db'.snapshots) row kept in
      (
        served_as newer,
        latest_snapshot-newest db' newer found,
        subst (λ t. t.version ≤ newer.version) (sym same) reached,
      )

  -- A row that is added, newer than those of its environment, is the one that is found.
  pub latest_snapshot-insert :
      (db db' : Database) (row : SnapshotRow)
      → db'.snapshots ≡ db.snapshots ++ row ∷ []
      → row.environment_id ≡ environment_id
      → ((r : SnapshotRow)
          → In r db.snapshots
          → r.environment_id ≡ environment_id
          → r.version < row.version)
      → latest_snapshot db' environment_id kind ≡ some (served_as row)
  unfolding latest_snapshot served_as filter
  latest_snapshot-insert db db' row grown of_it newest_of =
      let mine = of_environment environment_id in
      let older = λ (r : SnapshotRow) (m : In r (filter mine db.snapshots)).
        let (there, hit) = In-filtered mine r db.snapshots m in
        newest_of r there ((str_eq_iff _ _).0 hit) in
      let kept : mine row ≡ true = (str_eq_iff _ _).1 of_it in
      let found : newest (filter mine db'.snapshots) ≡ some row =
        ap (λ rows. newest (filter mine rows)) grown
        ∙ (ap newest (filter-append mine db.snapshots (row ∷ []))
            ∙ rw kept (newest-insert (filter mine db.snapshots) row older)) in
      latest_snapshot-newest db' row found
