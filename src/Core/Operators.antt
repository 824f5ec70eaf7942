-- ===== src/Core/Operators.antt =====
-- packages/core/src/operators.ts. A version's numbers are taken exactly; the source's doubles are
-- exact below 2 ^ 53.
mod Examples
pub mod Semver
pub mod Order
pub mod Cache
use flagship_platform.Shared.{if◌then◌else◌, ◌>>=◌}
use flagship_platform.Shared.{Bool, true, false, not, ◌&&◌, ◌||◌, Option, none, some, List, any}
use flagship_platform.Shared.Int.{ℤ, pos, ltb_ℤ}
use flagship_platform.Js.Text
use flagship_platform.Js.Text.{JsString, str_eq, includes}
use flagship_platform.Js.Number.{Number, num_eq, num_lt, num_le, is_finite}
use flagship_platform.Js.Host.{Regex, Host}
use flagship_platform.Core.Types.{AttributeValue, string, number, boolean, null, Operator}
use flagship_platform.Core.Operators.Semver.{SemVer, parse_raw, compare_semver}
use flagship_platform.Core.Operators.Cache.{compile_regex, empty_cache}

unfoldable pub as_string : AttributeValue → Option JsString
as_string (string s) = some s
as_string _ = none

unfoldable pub as_number : AttributeValue → Option Number
as_number (number n) = if is_finite n then some n else none
as_number _ = none

bool_eq : Bool → Bool → Bool
bool_eq true b = b
bool_eq false b = not b

unfoldable pub loose_equals : AttributeValue → AttributeValue → Bool
unfolding bool_eq
loose_equals (string a) (string b) = str_eq a b
loose_equals (number a) (number b) = num_eq a b
loose_equals (boolean a) (boolean b) = bool_eq a b
loose_equals null null = true
loose_equals _ _ = false

unfoldable pub parse_semver : AttributeValue → Option SemVer
unfolding as_string
parse_semver input = as_string input >>= parse_raw

unfoldable pub compare_numeric :
    AttributeValue → List AttributeValue → (predicate : Number → Number → Bool) → Bool
unfolding as_number any
compare_numeric attribute values predicate = elim (as_number attribute) [
  | none ↦ false
  | some left ↦
      any (λ value. elim (as_number value) [ none ↦ false | some right ↦ predicate left right ])
        values
]

unfoldable pub compare_semantic :
    AttributeValue → List AttributeValue → (predicate : ℤ → Bool) → Bool
unfolding parse_semver any
compare_semantic attribute values predicate = elim (parse_semver attribute) [
  | none ↦ false
  | some left ↦
      any
        (λ value. elim (parse_semver value) [
          | none ↦ false
          | some right ↦ predicate (compare_semver left right)
        ])
        values
]

unfoldable pub compare_string :
    AttributeValue → List AttributeValue → (predicate : JsString → JsString → Bool) → Bool
unfolding as_string any
compare_string attribute values predicate = elim (as_string attribute) [
  | none ↦ false
  | some left ↦
      any (λ value. elim (as_string value) [ none ↦ false | some right ↦ predicate left right ])
        values
]

module _ (host : Host) where
  -- The callback of `matches`. What the cache holds does not change it (Operators/Cache).
  unfoldable pub matches_regex : JsString → JsString → Bool
  unfolding compile_regex
  matches_regex a b = elim (compile_regex host empty_cache b).0 [
    | none ↦ false
    | some regex ↦ regex a
  ]

  -- `attribute` is `none` where the context does not carry it. The `default` case of the source, for
  -- an operator that its types rule out, has no counterpart.
  unfoldable pub apply_operator :
      Operator → (attribute : Option AttributeValue) → List AttributeValue → Bool
  unfolding any loose_equals compare_string compare_numeric compare_semantic matches_regex
  apply_operator operator none values = false
  apply_operator Operator.eq (some a) values = any (λ value. loose_equals a value) values
  apply_operator Operator.neq (some a) values = not (any (λ value. loose_equals a value) values)
  apply_operator Operator.in_list (some a) values = any (λ value. loose_equals a value) values
  apply_operator Operator.not_in (some a) values = not (any (λ value. loose_equals a value) values)
  apply_operator Operator.contains (some a) values = compare_string a values includes
  apply_operator Operator.starts_with (some a) values = compare_string a values Text.starts_with
  apply_operator Operator.ends_with (some a) values = compare_string a values Text.ends_with
  apply_operator Operator.matches (some a) values = compare_string a values matches_regex
  apply_operator Operator.gt (some a) values = compare_numeric a values (λ x y. num_lt y x)
  apply_operator Operator.gte (some a) values = compare_numeric a values (λ x y. num_le y x)
  apply_operator Operator.lt (some a) values = compare_numeric a values num_lt
  apply_operator Operator.lte (some a) values = compare_numeric a values num_le
  apply_operator Operator.semver_gt (some a) values =
      compare_semantic a values (λ o. ltb_ℤ (pos 0) o)
  apply_operator Operator.semver_lt (some a) values =
      compare_semantic a values (λ o. ltb_ℤ o (pos 0))
