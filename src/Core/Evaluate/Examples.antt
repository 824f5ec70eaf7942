-- ===== src/Core/Evaluate/Examples.antt =====
-- The evaluation theorems at the sample ruleset.
use flagship_platform.Shared.{◌≡◌, refl, arith, ◌<◌, true, false, some, none, ◌∷◌, []}
use flagship_platform.Shared.Int.{pos}
use flagship_platform.Js.Text.{js, str_eq}
use flagship_platform.Js.Set.{has}
use flagship_platform.Js.Map.Counting.{remaining}
use flagship_platform.Js.Map.{get, set}
use flagship_platform.Js.Value.{JsValue}
use flagship_platform.Core.Samples.{sample_host, visitor, snapshot_of, checkout, beta_rule}
use flagship_platform.Core.Bucketing.Examples.{half-valid}
use flagship_platform.Core.Evaluate.{
  CompiledFlag, EvaluationEnvironment, index_snapshot, index_flags, index_variations, match_node,
  segment_fuel,
}
use flagship_platform.Core.Evaluate.Flags.{evaluate_internal, evaluate_flag, flag_fuel}
use flagship_platform.Core.Evaluate.Matching.{rule_value, match_node-rule_value}
use flagship_platform.Core.Evaluate.Prerequisites.{
  result_of, evaluate_internal-result_of, evaluate_flag-result_of,
}
use flagship_platform.Core.Evaluate.Outcome.{
  IsHonest, IsValidated, is_error, evaluate_flag-IsHonest, evaluate_flag-never_error,
}

abbrev pub env : EvaluationEnvironment
env = index_snapshot (snapshot_of (pos 3))

abbrev pub compiled_checkout : CompiledFlag
compiled_checkout = record {
  flag = checkout;
  variations =
      (js "on", record { key = js "on"; value = JsValue.boolean true })
      ∷ (js "off", record { key = js "off"; value = JsValue.boolean false })
      ∷ [];
}

pub checkout_listed : get env.flags (js "checkout") ≡ some compiled_checkout
unfolding index_snapshot index_flags index_variations get set str_eq
checkout_listed = refl

checkout-IsValidated : IsValidated compiled_checkout
unfolding get str_eq
checkout-IsValidated = record {
  default_declared = (_, refl);
  off_declared = (_, refl);
  servable = ((_, refl), ((half-valid, ((_, refl), ((_, refl), tt))), tt));
}

few_flags : remaining env.flags [] < 2
unfolding index_snapshot index_flags get set remaining has
few_flags = omega arith

match_node_example :
    match_node sample_host visitor env (segment_fuel sample_host visitor env) beta_rule.when none
    ≡ some (rule_value sample_host visitor env beta_rule.when, none)
match_node_example = match_node-rule_value sample_host visitor env beta_rule.when

evaluate_internal_example :
    evaluate_internal sample_host visitor env 2 JsValue.null (js "checkout") []
    ≡ some (result_of sample_host visitor env 2 [] JsValue.null (js "checkout"), [])
evaluate_internal_example =
    evaluate_internal-result_of sample_host visitor env 2 JsValue.null (js "checkout") [] few_flags

evaluate_flag_example :
    evaluate_flag sample_host visitor env (js "checkout") JsValue.null
    ≡ result_of sample_host visitor env
        (flag_fuel sample_host visitor env)
        []
        JsValue.null
        (js "checkout")
evaluate_flag_example = evaluate_flag-result_of sample_host visitor env (js "checkout") JsValue.null

evaluate_flag-IsHonest_example :
    IsHonest compiled_checkout JsValue.null
      (evaluate_flag sample_host visitor env (js "checkout") JsValue.null)
evaluate_flag-IsHonest_example =
    evaluate_flag-IsHonest sample_host visitor env (js "checkout") JsValue.null compiled_checkout
      checkout_listed

never_error_example :
    is_error (evaluate_flag sample_host visitor env (js "checkout") JsValue.null).reason ≡ false
never_error_example =
    evaluate_flag-never_error sample_host visitor env (js "checkout") JsValue.null compiled_checkout
      checkout_listed checkout-IsValidated
