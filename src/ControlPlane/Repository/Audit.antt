-- ===== src/ControlPlane/Repository/Audit.antt =====
-- apps/control-plane/src/repository.ts: the bounds of `listAudit`.
use Prim.Native.Nat.{min}
use native.Mathlib.Nat.{min-le_left, min-le_right}
use flagship_platform.Shared.{
  ◌≡◌, subst, ℕ, ◌≤◌, Bool, true, Option, none, some, List, [], ◌∷◌, ◌&&◌, inl, inr, arith, In, ◌⊎◌,
  length, take, All, All-In, and-true, if◌then◌else◌, Bool-cases, zero, suc,
}
use flagship_platform.Js.Text.{JsString, str_eq, str_eq_iff}
use flagship_platform.ControlPlane.Database.{Database, AuditRow}
use flagship_platform.ControlPlane.Repository.{insert_by, order_by}
use flagship_platform.ControlPlane.Repository.Newest.{In-filtered}
use flagship_platform.ControlPlane.Repository.Reads.{list_audit}

module _ {A : Type 0} where
  length-take : (n : ℕ) (xs : List A) → length (take n xs) ≤ n
  length-take zero xs = omega arith
  length-take (suc n) [] = omega arith
  length-take (suc n) (x ∷ xs) = omega (arith, length-take n xs)

  In-take : (n : ℕ) (a : A) (xs : List A) → In a (take n xs) → In a xs
  In-take zero a xs m = absurd m
  In-take (suc n) a [] m = absurd m
  In-take (suc n) a (x ∷ xs) (inl same) = inl same
  In-take (suc n) a (x ∷ xs) (inr m) = inr (In-take n a xs m)

  In-insert_by :
      (le : A → A → Bool) (a x : A) (xs : List A) → In a (insert_by le x xs) → (a ≡ x) ⊎ In a xs
  unfolding insert_by
  In-insert_by le a x [] m = m
  In-insert_by le a x (y ∷ ys) m = elim (Bool-cases (le x y)) [
    | inl before ↦ subst (λ b. In a (if b then x ∷ y ∷ ys else y ∷ insert_by le x ys)) before m
    | inr after ↦
        let m' : In a (y ∷ insert_by le x ys) =
          subst (λ b. In a (if b then x ∷ y ∷ ys else y ∷ insert_by le x ys)) after m in
        elim m' [
          | inl same ↦ inr (inl same)
          | inr rest ↦ elim (In-insert_by le a x ys rest) [
            | inl new ↦ inl new
            | inr old ↦ inr (inr old)
          ]
        ]
  ]

  In-order_by : (le : A → A → Bool) (a : A) (xs : List A) → In a (order_by le xs) → In a xs
  unfolding order_by
  In-order_by le a [] m = m
  In-order_by le a (x ∷ xs) m = elim (In-insert_by le a x (order_by le xs) m) [
    | inl same ↦ inl same
    | inr rest ↦ inr (In-order_by le a xs rest)
  ]

take-bounded :
    (asked : ℕ) (rows : List AuditRow)
    → (length (take (min asked 200) rows) ≤ 200) × (length (take (min asked 200) rows) ≤ asked)
take-bounded asked rows = (
  omega (arith, length-take (min asked 200) rows, min-le_right asked 200),
  omega (arith, length-take (min asked 200) rows, min-le_left asked 200),
)

-- What an audit entry has to be to be listed.
abbrev pub IsListed : (tenant_id : JsString) → (resource_key : Option JsString) → AuditRow → Type 0
IsListed tenant_id none row = row.tenant_id ≡ tenant_id
IsListed tenant_id (some key) row = (row.tenant_id ≡ tenant_id) × (row.resource_key ≡ key)

wanted-IsListed :
    (tenant_id : JsString) (resource_key : Option JsString) (row : AuditRow)
    → (str_eq row.tenant_id tenant_id && elim resource_key as (λ _. Bool) [
      | none ↦ true
      | some key ↦ str_eq row.resource_key key
    ])
      ≡ true
    → IsListed tenant_id resource_key row
wanted-IsListed tenant_id none row h = (str_eq_iff _ _).0 (and-true h).0
wanted-IsListed tenant_id (some key) row h =
    ((str_eq_iff _ _).0 (and-true h).0, (str_eq_iff _ _).0 (and-true h).1)

-- Whatever limit is asked for, at most 200 entries are listed, and no more than the limit; each is an
-- entry of the log, of the tenant, and about the resource if one is asked for.
pub list_audit-bounded :
    (db : Database) (tenant_id : JsString) (resource_key : Option JsString) (limit : Option ℕ)
    → (length (list_audit db tenant_id resource_key limit) ≤ 200)
      × (length (list_audit db tenant_id resource_key limit)
          ≤ elim limit as (λ _. ℕ) [ none ↦ 50 | some n ↦ n ])
      × All
          (λ row. In row db.audit_log × IsListed tenant_id resource_key row)
          (list_audit db tenant_id resource_key limit)
unfolding list_audit
list_audit-bounded db tenant_id resource_key limit =
    let asked : ℕ = elim limit as (λ _. ℕ) [ none ↦ 50 | some n ↦ n ] in
    let (capped, within) = take-bounded asked _ in
    (
      capped,
      within,
      All-In _ _ (λ row m.
          let (there, wanted) =
            In-filtered _ row db.audit_log (In-order_by _ row _ (In-take _ row _ m)) in
          (there, wanted-IsListed tenant_id resource_key row wanted)),
    )
