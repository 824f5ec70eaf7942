-- ===== src/ControlPlane/Ruleset/Examples.antt =====
-- Publishing the sample ruleset, and rulesets that are refused.
use flagship_platform.Shared.{◌≡◌, refl, filter, false, some, ◌∷◌, []}
use flagship_platform.Shared.Int.{pos, ◌+ℤ◌}
use flagship_platform.Js.Text.{JsString, js, str_eq}
use flagship_platform.Js.Set.{has, add}
use flagship_platform.Js.Map.{get, set}
use flagship_platform.Js.Number.{is_integer, num_add, num_eq, num_lt, of_nat, unit}
use flagship_platform.Core.Bucketing.{is_valid_distribution, total_weight}
use flagship_platform.ControlPlane.Ruleset.{
  problem_if, set_of, undeclared_slices, unknown_segments, validate_flag, validate_flags,
  validate_prerequisites, validate_rules, validate_segments, validate_serve, variation_keys_of,
}
use flagship_platform.ControlPlane.Ruleset.Nodes.{
  validate_rule_node, validate_node, object_of, validate_fields, property, validate_boolean,
  validate_children, validate_condition, validate_segment_ref,
}
use flagship_platform.Js.Value.{JsValue}
use flagship_platform.Core.Types.{Flag, RulesetSnapshot}
use flagship_platform.Core.Samples.{sample_host, visitor, snapshot_of, checkout}
use flagship_platform.Core.Evaluate.{index_snapshot}
use flagship_platform.Core.Evaluate.Flags.{evaluate_flag}
use flagship_platform.Core.Evaluate.Outcome.{is_error}
use flagship_platform.Core.Evaluate.Examples.{compiled_checkout, checkout_listed}
use flagship_platform.Core.Visibility.{
  all_in, client_safe_segments, contains_server_only, some_contain_server_only, filter_flag,
  filter_snapshot_for_key, find_server_only_leaks, flag_leaks, is_rule_client_safe, keys_of,
  missing_leaks, referenced_segments, referenced_by_all, rule_leaks, safe_loop, safe_round,
  segment_leaks, tree_is_safe,
}
use flagship_platform.Core.Visibility.Leaks.{client_payload}
use flagship_platform.ControlPlane.Ruleset.Cycles.{
  find_prerequisite_cycle, visit_flags, visit, flags_by_key, visit_all, enter, leave, pop,
  slice_from,
}
use flagship_platform.ControlPlane.Ruleset.Compile.{
  problems_of, publish, all_problems, checked, cycle_problems, CompiledRuleset, compiled,
  compile_ruleset,
}
use flagship_platform.ControlPlane.Ruleset.Published.{published_flag-never_error}

abbrev pub rows : RulesetSnapshot
rows = snapshot_of (pos 3)

abbrev pub published : CompiledRuleset
published = record { server = rows; client = client_payload rows (js "beta" ∷ []) }

pub rows-published : compile_ruleset rows ≡ some (compiled published)
unfolding compile_ruleset find_prerequisite_cycle get set has add str_eq is_valid_distribution
    total_weight ◌+ℤ◌ filter visit_flags visit flags_by_key visit_all enter leave pop slice_from
    validate_rule_node validate_node object_of validate_fields property validate_boolean
    validate_children validate_condition validate_segment_ref problems_of publish all_problems
    checked cycle_problems problem_if set_of undeclared_slices unknown_segments validate_flag
    validate_flags validate_prerequisites validate_rules validate_segments validate_serve
    variation_keys_of all_in client_safe_segments contains_server_only some_contain_server_only
    filter_flag filter_snapshot_for_key find_server_only_leaks flag_leaks is_rule_client_safe
    keys_of missing_leaks referenced_segments referenced_by_all rule_leaks safe_loop safe_round
    segment_leaks tree_is_safe is_integer num_add num_eq num_lt of_nat unit
rows-published = refl

abbrev requiring : JsString → JsString → Flag
requiring key upstream = record checkout {
  key = key;
  prerequisites = record { flag_key = upstream; variation_key = js "on" } ∷ [];
}

cycle_found :
    find_prerequisite_cycle (requiring (js "a") (js "b") ∷ requiring (js "b") (js "a") ∷ [])
    ≡ some (some (js "a" ∷ js "b" ∷ js "a" ∷ []))
unfolding find_prerequisite_cycle visit_flags visit get flags_by_key set visit_all enter slice_from
    str_eq
cycle_found = refl

published_flag_example :
    is_error
      (evaluate_flag sample_host visitor (index_snapshot rows) (js "checkout") JsValue.null).reason
    ≡ false
published_flag_example =
    published_flag-never_error rows published sample_host visitor (js "checkout") JsValue.null
      compiled_checkout rows-published checkout_listed
