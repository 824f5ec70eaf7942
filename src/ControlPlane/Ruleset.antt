-- ===== src/ControlPlane/Ruleset.antt =====
-- apps/control-plane/src/ruleset.ts. A problem is a constructor with what its text is filled with,
-- and the exception that carries the problems is the result `refused`. Rows are taken with the types
-- that the source casts them to; the validator of rule trees takes any value.
pub mod Nodes
pub mod Cycles
pub mod Compile
pub mod Search
pub mod Published
pub mod Examples
use flagship_platform.Shared.{
  ℕ, zero, suc, ◌+◌, ◌==◌, Bool, true, false, not, ◌&&◌, ◌||◌, Option, none, some, List, [], ◌∷◌,
  ◌++◌, map, if◌then◌else◌, length, drop, ◌>>=◌,
}
use flagship_platform.Shared.Int.{ℤ}
use flagship_platform.Js.Text.{JsString, js, str_eq}
use flagship_platform.Js.Set.{JsSet, has, add}
use flagship_platform.Js.Map.{JsMap, get, set}
use flagship_platform.Core.Types.{
  Distribution, Serve, fixed, rollout, TargetingRule, Prerequisite, Flag, Segment, RulesetSnapshot,
}
use flagship_platform.Core.Bucketing.{is_valid_distribution}
use flagship_platform.Core.Visibility.{
  KeyKind, referenced_segments, filter_snapshot_for_key, find_server_only_leaks, Leak,
}
use flagship_platform.ControlPlane.Ruleset.Nodes.{
  Place, rule_path, segment_path, NodeProblem, object_of, validate_rule_node,
}

pub data Problem : Type 0 where
  in_tree : NodeProblem → Problem
  no_variations duplicate_variations : (flag_key : JsString) → Problem
  undeclared_default undeclared_off : (flag_key : JsString) → Problem
  unknown_segment : Place → (segment_key : JsString) → Problem
  undeclared_served undeclared_in_rollout : Place → (variation_key : JsString) → Problem
  bad_weights : Place → Problem
  unknown_prerequisite : (flag_key prerequisite_key : JsString) → Problem
  cycle : List JsString → Problem
  leaking : List Leak → Problem

-- new Set(keys)
unfoldable pub set_of : JsSet → List JsString → JsSet
set_of s [] = s
set_of s (k ∷ ks) = set_of (add s k) ks

unfoldable pub problem_if : Bool → Problem → List Problem
problem_if test problem = if test then problem ∷ [] else []

unfoldable pub unknown_segments :
    Place → (segment_keys : JsSet) → (referenced : JsSet) → List Problem
unfolding problem_if
unknown_segments path segment_keys [] = []
unknown_segments path segment_keys (key ∷ keys) =
    problem_if (not (has segment_keys key)) (unknown_segment path key)
    ++ unknown_segments path segment_keys keys

-- The loop over the slices of a rollout.
unfoldable pub undeclared_slices :
    Place → (variation_keys : JsSet) → List Distribution → List Problem
unfolding problem_if
undeclared_slices path variation_keys [] = []
undeclared_slices path variation_keys (slice ∷ slices) =
    problem_if (not (has variation_keys slice.variation_key))
      (undeclared_in_rollout path slice.variation_key)
    ++ undeclared_slices path variation_keys slices

unfoldable pub validate_serve : Place → (variation_keys : JsSet) → Serve → List Problem
unfolding problem_if undeclared_slices
validate_serve path variation_keys (fixed key) =
    problem_if (not (has variation_keys key)) (undeclared_served path key)
validate_serve path variation_keys (rollout slices) =
    problem_if (not (is_valid_distribution slices)) (bad_weights path)
    ++ undeclared_slices path variation_keys slices

-- `collectSegmentKeys` is `referencedSegments` of packages/core over again.
unfoldable pub validate_rules :
    (flag_key : JsString)
    → (segment_keys variation_keys : JsSet) → (index : ℕ) → List TargetingRule
    → List Problem
validate_rules flag_key segment_keys variation_keys index [] = []
validate_rules flag_key segment_keys variation_keys index (rule ∷ rules) =
    let path = rule_path flag_key index in
    map in_tree (validate_rule_node (object_of rule.when) path)
    ++ (unknown_segments path segment_keys (referenced_segments rule.when [])
        ++ (validate_serve path variation_keys rule.serve
            ++ validate_rules flag_key segment_keys variation_keys (index + 1) rules))

unfoldable pub variation_keys_of : Flag → JsSet
variation_keys_of flag = set_of [] (map (λ v. v.key) flag.variations)

unfoldable pub validate_flag : Flag → (segment_keys : JsSet) → List Problem
validate_flag flag segment_keys =
    let keys = variation_keys_of flag in
    if length keys == 0
    then no_variations flag.key ∷ []
    else problem_if (not (length keys == length flag.variations)) (duplicate_variations flag.key)
      ++ (problem_if (not (has keys flag.default_variation_key)) (undeclared_default flag.key)
          ++ (problem_if (not (has keys flag.off_variation_key)) (undeclared_off flag.key)
              ++ validate_rules flag.key segment_keys keys 0 flag.rules))

unfoldable pub validate_prerequisites :
    (flag_key : JsString) → (flag_keys : JsSet) → List Prerequisite → List Problem
unfolding problem_if
validate_prerequisites flag_key flag_keys [] = []
validate_prerequisites flag_key flag_keys (p ∷ ps) =
    problem_if (not (has flag_keys p.flag_key)) (unknown_prerequisite flag_key p.flag_key)
    ++ validate_prerequisites flag_key flag_keys ps

-- The loop over the flags.
unfoldable pub validate_flags : (segment_keys flag_keys : JsSet) → List Flag → List Problem
validate_flags segment_keys flag_keys [] = []
validate_flags segment_keys flag_keys (flag ∷ flags) =
    validate_flag flag segment_keys
    ++ (validate_prerequisites flag.key flag_keys flag.prerequisites
        ++ validate_flags segment_keys flag_keys flags)

unfoldable pub validate_segments : List Segment → List Problem
validate_segments [] = []
validate_segments (s ∷ ss) =
    map in_tree (validate_rule_node (object_of s.when) (segment_path s.key)) ++ validate_segments ss
