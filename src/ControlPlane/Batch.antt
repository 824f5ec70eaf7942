-- ===== src/ControlPlane/Batch.antt =====
-- apps/control-plane/src/exposures.ts: `validateBatch`. Parsing and printing dates is the engine's.
pub mod Partition
mod Examples
use flagship_platform.Shared.{
  ℕ, ◌+◌, Bool, true, false, not, ◌&&◌, ◌||◌, Option, none, some, List, [], ◌∷◌, if◌then◌else◌,
  length, leb, ◌++◌, ◌⊎◌, inl, inr,
}
use flagship_platform.Shared.Int.{ℤ, pos, ◌-ℤ◌, ltb_ℤ}
use flagship_platform.Js.Text.{JsString, js}
use flagship_platform.Js.Number.{Number, of_nat, is_integer, num_lt}
use flagship_platform.Js.Value
use flagship_platform.Js.Value.{JsValue, Fields}
use flagship_platform.Core.Visibility.{KeyKind}
use flagship_platform.ControlPlane.Ruleset.Nodes.{property}

-- What the engine does with dates: `String(v)`, `new Date(s).getTime()` in milliseconds (`none` is
-- NaN), and `toISOString`.
pub record Dates : Type 0 where
  pub to_text : JsValue → JsString
  pub time_of : JsString → Option ℤ
  pub to_iso_string : ℤ → JsString

-- The scope of an authenticated key.
pub record AuthenticatedKey : Type 0 where
  pub tenant_id : JsString
  pub environment_id : JsString
  pub environment_key : JsString
  pub kind : KeyKind
  pub api_key_id : JsString

pub record ExposureRow : Type 0 where
  pub tenant_id : JsString
  pub environment_key : JsString
  pub flag_key : JsString
  pub variation_key : JsString
  pub context_key : JsString
  pub ruleset_version : Number
  pub timestamp : JsString
  pub dedupe_key : JsString

abbrev pub max_field_length : ℕ
max_field_length = 512

abbrev pub max_clock_skew_millis : ℤ
max_clock_skew_millis = pos 86400000

abbrev pub max_backdate_millis : ℤ
max_backdate_millis = pos 2592000000

-- The reasons of the source.
pub data Reason : Type 0 where
  not_an_object bad_version bad_date too_early too_late : Reason
  bad_field : (name : JsString) → Reason

pub record Rejection : Type 0 where
  pub index : ℕ
  pub reason : Reason

pub record ValidationOutcome : Type 0 where
  pub rows : List ExposureRow
  pub rejected : List Rejection

-- isUsableString(value), with the string
unfoldable pub usable_string : JsValue → Option JsString
usable_string (JsValue.string s) =
    if not (leb (length s) 0) && leb (length s) max_field_length then some s else none
usable_string _ = none

unfoldable pub usable_version : JsValue → Reason ⊎ Number
usable_version (JsValue.number n) =
    if is_integer n && not (num_lt n (of_nat 0)) then inr n else inl bad_version
usable_version _ = inl bad_version

-- A check that returns early, and what follows it.
unfoldable pub and_then : {A B : Type 0} → Reason ⊎ A → (A → Reason ⊎ B) → Reason ⊎ B
and_then (inl reason) f = inl reason
and_then (inr a) f = f a

-- s.replace(c, t), for a code unit `c`
unfoldable pub replace_first : ℕ → JsString → JsString → JsString
replace_first c t [] = []
replace_first c t (d ∷ s) =
    let rest = replace_first c t s in if leb c d && leb d c then t ++ s else d ∷ rest

module _ (dates : Dates) where
  unfoldable pub to_click_house_date_time : (instant : ℤ) → JsString
  to_click_house_date_time instant =
      replace_first b'Z' [] (replace_first b'T' (js " ") (dates.to_iso_string instant))

  -- The checks of the timestamp.
  unfoldable pub usable_instant : (now : ℤ) → JsValue → Reason ⊎ ℤ
  usable_instant now value = elim (dates.time_of (dates.to_text value)) [
    | none ↦ inl bad_date
    | some instant ↦
        let skew = instant -ℤ now in
        if ltb_ℤ max_clock_skew_millis skew
        then inl too_late
        else if ltb_ℤ max_backdate_millis (pos 0 -ℤ skew)
        then inl too_early
        else inr instant
  ]

  -- The loop over the text fields: the first that is not usable gives the reason.
  unfoldable pub field_or_reason : Fields → (name : JsString) → Reason ⊎ JsString
  field_or_reason event name = elim (usable_string (property event name)) [
    | none ↦ inl (bad_field name)
    | some s ↦ inr s
  ]

  module _ (scope : AuthenticatedKey) (now : ℤ) where
    -- The callback of `forEach`, for one object.
    unfoldable pub row_of : Fields → Reason ⊎ ExposureRow
    row_of event = and_then (field_or_reason event (js "flagKey")) (λ flag_key.
        and_then (field_or_reason event (js "variationKey")) (λ variation_key.
          and_then (field_or_reason event (js "contextKey")) (λ context_key.
            and_then (field_or_reason event (js "dedupeKey")) (λ dedupe_key.
              and_then (usable_version (property event (js "rulesetVersion"))) (λ version.
                and_then (usable_instant now (property event (js "timestamp"))) (λ instant.
                  inr (record {
                    tenant_id = scope.tenant_id;
                    environment_key = scope.environment_key;
                    flag_key = flag_key;
                    variation_key = variation_key;
                    context_key = context_key;
                    ruleset_version = version;
                    timestamp = to_click_house_date_time instant;
                    dedupe_key = dedupe_key;
                  })))))))

    -- The callback of `forEach`. An array has none of the properties.
    unfoldable pub classify : JsValue → Reason ⊎ ExposureRow
    classify (JsValue.object event) = row_of event
    classify (JsValue.array items) = row_of Fields.end
    classify _ = inl not_an_object

    unfoldable pub validate_from : (index : ℕ) → List JsValue → ValidationOutcome
    validate_from index [] = record { rows = []; rejected = [] }
    validate_from index (candidate ∷ events) =
        let rest = validate_from (index + 1) events in
        elim (classify candidate) [
          | inl reason ↦ record {
            rows = rest.rows;
            rejected = record { index = index; reason = reason } ∷ rest.rejected;
          }
          | inr row ↦ record { rows = row ∷ rest.rows; rejected = rest.rejected }
        ]

    unfoldable pub validate_batch : List JsValue → ValidationOutcome
    validate_batch events = validate_from 0 events
