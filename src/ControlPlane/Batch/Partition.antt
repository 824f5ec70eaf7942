-- ===== src/ControlPlane/Batch/Partition.antt =====
-- What `validateBatch` keeps and what it stamps.
use flagship_platform.Shared.{
  ℕ, suc, not, ◌&&◌, subst, ◌+◌, ◌≤◌, ◌<◌, ◌≡◌, refl, some, List, [], ◌∷◌, arith, length, leb, All,
  ◌⊎◌, inl, inr, Option-cases, Bool-cases,
}
use flagship_platform.Shared.Int.{ℤ}
use flagship_platform.Js.Text.{JsString, js}
use flagship_platform.Js.Value.{JsValue, Fields}
use flagship_platform.ControlPlane.Ruleset.Nodes.{property}
use flagship_platform.ControlPlane.Batch.{
  Dates, AuthenticatedKey, ExposureRow, Reason, Rejection, usable_string, and_then, field_or_reason,
  row_of, classify, validate_from, validate_batch,
}

abbrev pub IsUsable : JsString → Type 0
IsUsable s = (1 ≤ length s) × (length s ≤ 512)

-- A row that carries the scope of the key, and text of the allowed lengths.
pub record IsScoped (scope : AuthenticatedKey) (row : ExposureRow) : Type 0 where
  pub tenant : row.tenant_id ≡ scope.tenant_id
  pub environment : row.environment_key ≡ scope.environment_key
  pub flag : IsUsable row.flag_key
  pub variation : IsUsable row.variation_key
  pub context : IsUsable row.context_key
  pub dedupe : IsUsable row.dedupe_key

usable_string-IsUsable : (v : JsValue) (s : JsString) → usable_string v ≡ some s → IsUsable s
unfolding usable_string
usable_string-IsUsable (JsValue.string t) s h =
    elim (Bool-cases (not (leb (length t) 0) && leb (length t) 512)) [
      | inl fits ↦
          let same : t ≡ s = ground (arith, h, fits) in subst IsUsable same (ground (arith, fits))
      | inr other ↦ absurd (ground (arith, h, other))
    ]
usable_string-IsUsable JsValue.undefined s h = absurd (ground arith)
usable_string-IsUsable JsValue.null s h = absurd (ground arith)
usable_string-IsUsable (JsValue.boolean b) s h = absurd (ground arith)
usable_string-IsUsable (JsValue.number n) s h = absurd (ground arith)
usable_string-IsUsable (JsValue.array vs) s h = absurd (ground arith)
usable_string-IsUsable (JsValue.object fs) s h = absurd (ground arith)

field-IsUsable :
    (dates : Dates) (event : Fields) (name s : JsString)
    → field_or_reason dates event name ≡ inr s
    → IsUsable s
unfolding field_or_reason
field-IsUsable dates event name s h = elim (Option-cases (usable_string (property event name))) [
  | inl missing ↦ absurd (ground (arith, missing, h))
  | inr (t, found) ↦
      let same : t ≡ s = ground (arith, found, h) in
      subst IsUsable same (usable_string-IsUsable (property event name) t found)
]

and_then-inr :
    {A B : Type 0} (r : Reason ⊎ A) (f : A → Reason ⊎ B) (b : B)
    → and_then r f ≡ inr b
    → (a : A) × (r ≡ inr a) × (f a ≡ inr b)
unfolding and_then
and_then-inr (inl reason) f b h = absurd (ground arith)
and_then-inr (inr a) f b h = (a, refl, h)

inr-injective : (a b : ExposureRow) → ◌≡◌ {A = Reason ⊎ ExposureRow} (inr a) (inr b) → a ≡ b
inr-injective a b h = cc

row_of-IsScoped :
    (dates : Dates) (scope : AuthenticatedKey) (now : ℤ) (event : Fields) (row : ExposureRow)
    → row_of dates scope now event ≡ inr row
    → IsScoped scope row
unfolding row_of
row_of-IsScoped dates scope now event row h =
    let (flag, f, h1) = and_then-inr _ _ row h in
    let (variation, v, h2) = and_then-inr _ _ row h1 in
    let (context, c, h3) = and_then-inr _ _ row h2 in
    let (dedupe, d, h4) = and_then-inr _ _ row h3 in
    let (version, _, h5) = and_then-inr _ _ row h4 in
    let (instant, _, h6) = and_then-inr _ _ row h5 in
    let same = inr-injective _ row h6 in
    subst (IsScoped scope) same (record {
      tenant = refl;
      environment = refl;
      flag = field-IsUsable dates event (js "flagKey") flag f;
      variation = field-IsUsable dates event (js "variationKey") variation v;
      context = field-IsUsable dates event (js "contextKey") context c;
      dedupe = field-IsUsable dates event (js "dedupeKey") dedupe d;
    })

classify-IsScoped :
    (dates : Dates) (scope : AuthenticatedKey) (now : ℤ) (v : JsValue) (row : ExposureRow)
    → classify dates scope now v ≡ inr row
    → IsScoped scope row
unfolding classify
classify-IsScoped dates scope now (JsValue.object event) row h =
    row_of-IsScoped dates scope now event row h
classify-IsScoped dates scope now (JsValue.array vs) row h =
    row_of-IsScoped dates scope now Fields.end row h
classify-IsScoped dates scope now JsValue.undefined row h = absurd (ground arith)
classify-IsScoped dates scope now JsValue.null row h = absurd (ground arith)
classify-IsScoped dates scope now (JsValue.boolean b) row h = absurd (ground arith)
classify-IsScoped dates scope now (JsValue.number n) row h = absurd (ground arith)
classify-IsScoped dates scope now (JsValue.string s) row h = absurd (ground arith)

pub classify-cases :
    (x : Reason ⊎ ExposureRow)
    → ((reason : Reason) × (x ≡ inl reason)) ⊎ ((row : ExposureRow) × (x ≡ inr row))
classify-cases (inl reason) = inl (reason, refl)
classify-cases (inr row) = inr (row, refl)

-- A rejection of an event at or after `index`, among `n`.
abbrev pub IsIndexed : (index n : ℕ) → Rejection → Type 0
IsIndexed index n r = (index ≤ r.index) × (r.index < index + n)

All-IsIndexed :
    (index n : ℕ) (rs : List Rejection)
    → All (IsIndexed (index + 1) n) rs
    → All (IsIndexed index (suc n)) rs
All-IsIndexed index n [] h = tt
All-IsIndexed index n (r ∷ rs) ((a, b), h) =
    ((omega arith, omega arith), All-IsIndexed index n rs h)

-- The events from `index` on.
validate_from-partition :
    (dates : Dates) (scope : AuthenticatedKey) (now : ℤ) (index : ℕ) (events : List JsValue)
    → (let outcome = validate_from dates scope now index events in
        (length outcome.rows + length outcome.rejected ≡ length events)
        × All (IsScoped scope) outcome.rows
        × All (IsIndexed index (length events)) outcome.rejected)
unfolding validate_from
validate_from-partition dates scope now index [] = (refl, tt, tt)
validate_from-partition dates scope now index (v ∷ vs) =
    let (count, scoped, indices) = validate_from-partition dates scope now (index + 1) vs in
    let later =
      All-IsIndexed index (length vs) (validate_from dates scope now (index + 1) vs).rejected
        indices in
    elim (classify-cases (classify dates scope now v)) [
      | inl (reason, bad) ↦
          rw (bad, validate_from) (omega arith, scoped, ((omega arith, omega arith), later))
      | inr (row, good) ↦
          rw (good, validate_from)
            (omega arith, (classify-IsScoped dates scope now v row good, scoped), later)
    ]

pub validate_batch-partition :
    (dates : Dates) (scope : AuthenticatedKey) (now : ℤ) (events : List JsValue)
    → (let outcome = validate_batch dates scope now events in
        (length outcome.rows + length outcome.rejected ≡ length events)
        × All (IsScoped scope) outcome.rows
        × All (IsIndexed 0 (length events)) outcome.rejected)
unfolding validate_batch
validate_batch-partition dates scope now events = validate_from-partition dates scope now 0 events
