-- ===== src/Core/Types.antt =====
-- packages/core/src/types.ts: the wire contract. A rule node's children have a list type of their
-- own. Versions are whole numbers, as in the `version` column that they come from.
use flagship_platform.Shared.{ℕ, Bool, Option, List}
use flagship_platform.Shared.Int.{ℤ}
use flagship_platform.Js.Text.{JsString}
use flagship_platform.Js.Map.{JsMap}
use flagship_platform.Js.Number.{Number}
use flagship_platform.Js.Value.{JsValue}

pub data AttributeValue : Type 0 where
  string : JsString → AttributeValue
  number : Number → AttributeValue
  boolean : Bool → AttributeValue
  null : AttributeValue

pub data Operator : Type 0 where
  eq neq in_list not_in contains starts_with ends_with matches : Operator
  gt gte lt lte semver_gt semver_lt : Operator

pub data Visibility : Type 0 where
  client server : Visibility

mutual
  pub data RuleNode : Type 0 where
    condition : JsString → Operator → List AttributeValue → Visibility → RuleNode
    and or not : RuleNodes → RuleNode
    segment : (segment_key : JsString) (negate : Bool) → RuleNode

  pub data RuleNodes : Type 0 where
    nil : RuleNodes
    cons : RuleNode → RuleNodes → RuleNodes

pub record Variation : Type 0 where
  pub key : JsString
  pub value : JsValue

pub record Distribution : Type 0 where
  pub variation_key : JsString
  pub weight : Number

pub data Serve : Type 0 where
  fixed : JsString → Serve
  rollout : List Distribution → Serve

pub record TargetingRule : Type 0 where
  pub id : JsString
  pub description : JsString
  pub when : RuleNode
  pub serve : Serve

pub record Prerequisite : Type 0 where
  pub flag_key : JsString
  pub variation_key : JsString

pub record Flag : Type 0 where
  pub key : JsString
  pub enabled : Bool
  pub salt : JsString
  pub variations : List Variation
  pub default_variation_key : JsString
  pub off_variation_key : JsString
  pub prerequisites : List Prerequisite
  pub rules : List TargetingRule
  pub bucket_by : JsString

pub record Segment : Type 0 where
  pub key : JsString
  pub when : RuleNode

pub record RulesetSnapshot : Type 0 where
  pub environment_key : JsString
  pub version : ℤ
  pub flags : List Flag
  pub segments : List Segment
  pub served_at : JsString

-- `attributes` holds the object's own properties.
pub record EvaluationContext : Type 0 where
  pub key : JsString
  pub attributes : JsMap AttributeValue

pub data EvaluationReason : Type 0 where
  off default : EvaluationReason
  prerequisite_failed : (flag_key : JsString) → EvaluationReason
  rule_match : (rule_id : JsString) → EvaluationReason
  error : (message : JsString) → EvaluationReason

pub record EvaluationResult : Type 0 where
  pub value : JsValue
  pub variation_key : JsString
  pub reason : EvaluationReason
  pub bucket : Option ℕ
