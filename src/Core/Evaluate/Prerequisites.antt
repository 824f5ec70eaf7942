-- ===== src/Core/Evaluate/Prerequisites.antt =====
-- `evaluateInternal` against a description with no state and no failure: it ends, and it leaves the
-- guard set as it was.
use flagship_platform.Shared.{
  ℕ, zero, suc, ◌<◌, ◌≡◌, refl, not, Option, none, some, List, [], ◌∷◌, arith, if◌then◌else◌,
  Bool-cases, Option-cases, inl, inr,
}
use flagship_platform.Js.Text.{JsString, js, str_eq}
use flagship_platform.Js.Set.{JsSet, has, add, delete-add_new}
use flagship_platform.Js.Map.{get}
use flagship_platform.Js.Map.Counting.{remaining, remaining-le-length, remaining-add_lt}
use flagship_platform.Js.Value.{JsValue, undefined}
use flagship_platform.Js.Host.{Host}
use flagship_platform.Core.Types.{
  TargetingRule, Prerequisite, EvaluationContext, off, default, prerequisite_failed,
  EvaluationResult,
}
use flagship_platform.Core.Evaluate.{CompiledFlag, EvaluationEnvironment}
use flagship_platform.Core.Evaluate.Flags.{
  failed_with, unknown_flag, prerequisite_cycle, result_for, serve_rule, serve_rules, first_failed,
  evaluate_compiled, evaluate_internal, flag_fuel, evaluate_flag,
}
use flagship_platform.Core.Evaluate.Matching.{rule_value, match_node-rule_value}

-- The first prerequisite whose flag does not serve the required variation.
unfoldable pub unmet :
    (result : JsString → EvaluationResult) → List Prerequisite → Option Prerequisite
unmet result [] = none
unmet result (p ∷ ps) =
    if str_eq (result p.flag_key).variation_key p.variation_key then unmet result ps else some p

module _ (host : Host) (context : EvaluationContext) (env : EvaluationEnvironment) where
  -- The first rule that matches.
  unfoldable pub first_match : List TargetingRule → Option TargetingRule
  first_match [] = none
  first_match (r ∷ rs) = if rule_value host context env r.when then some r else first_match rs

  -- What a flag serves to a context, given what its prerequisites serve.
  unfoldable pub flag_value :
      (result : JsString → EvaluationResult)
      → CompiledFlag
      → (fallback : JsValue) → EvaluationResult
  flag_value result compiled fallback =
      let flag = compiled.flag in
      if not flag.enabled
      then result_for compiled flag.off_variation_key off fallback none
      else elim (unmet result flag.prerequisites) [
        | some p ↦
            result_for compiled flag.off_variation_key (prerequisite_failed p.flag_key) fallback
              none
        | none ↦ elim (first_match flag.rules) [
          | none ↦ result_for compiled flag.default_variation_key default fallback none
          | some rule ↦ serve_rule host context compiled rule.id rule.serve fallback
        ]
      ]

  -- The result for a flag that is required by the flags in `seen`.
  unfoldable pub result_of :
      (depth : ℕ) → (seen : JsSet) → (fallback : JsValue) → JsString → EvaluationResult
  result_of zero seen fallback key = failed_with (js "evaluation failed") fallback
  result_of (suc depth) seen fallback key = elim (get env.flags key) [
    | none ↦ failed_with (unknown_flag key) fallback
    | some compiled ↦
        if has seen key
        then failed_with (prerequisite_cycle key) fallback
        else flag_value (result_of depth (add seen key) undefined) compiled fallback
  ]

  -- The result of the first rule that matches, or of the default.
  rules_value : CompiledFlag → List TargetingRule → JsValue → EvaluationResult
  rules_value compiled rules fallback = elim (first_match rules) [
    | none ↦ result_for compiled compiled.flag.default_variation_key default fallback none
    | some rule ↦ serve_rule host context compiled rule.id rule.serve fallback
  ]

  serve_rules-rules_value :
      (compiled : CompiledFlag) (rules : List TargetingRule) (fallback : JsValue)
      → serve_rules host context env compiled rules fallback
        ≡ some (rules_value compiled rules fallback)
  unfolding serve_rules first_match rules_value
  serve_rules-rules_value compiled [] fallback = refl
  serve_rules-rules_value compiled (r ∷ rs) fallback =
      rw
        (
          match_node-rule_value host context env r.when,
          serve_rules-rules_value compiled rs fallback,
        )
        (ground arith)

  module _ (evaluate : JsString → JsSet → Option (EvaluationResult × JsSet))
      (result : JsString → EvaluationResult) (seen : JsSet)
      (answers : (k : JsString) → evaluate k seen ≡ some (result k, seen)) where
    first_failed-unmet :
        (ps : List Prerequisite)
        → first_failed host context env evaluate ps seen ≡ some (unmet result ps, seen)
    unfolding first_failed unmet
    first_failed-unmet [] = refl
    first_failed-unmet (p ∷ ps) = rw (answers p.flag_key, first_failed-unmet ps) (ground arith)

    evaluate_compiled-flag_value :
        (compiled : CompiledFlag) (fallback : JsValue)
        → evaluate_compiled host context env evaluate compiled fallback seen
          ≡ some (flag_value result compiled fallback, seen)
    unfolding evaluate_compiled flag_value
    evaluate_compiled-flag_value compiled fallback =
        let met = first_failed-unmet compiled.flag.prerequisites in
        let served = serve_rules-rules_value compiled compiled.flag.rules fallback in
        unfold rules_value in ground (arith, met, served)

  -- With more fuel than there are flags outside the guard set, the recursion over prerequisites
  -- ends, cycles included: it gives the described result, and the guard set that it was given.
  pub evaluate_internal-result_of :
      (fuel : ℕ) (fallback : JsValue) (key : JsString) (seen : JsSet)
      → remaining env.flags seen < fuel
      → evaluate_internal host context env fuel fallback key seen
        ≡ some (result_of fuel seen fallback key, seen)
  unfolding evaluate_internal result_of
  evaluate_internal-result_of zero fallback key seen h = absurd (omega arith)
  evaluate_internal-result_of (suc fuel) fallback key seen h =
      elim (Option-cases (get env.flags key)) [
        | inl unknown ↦ ground (arith, unknown)
        | inr (compiled, listed) ↦ elim (Bool-cases (has seen key)) [
          | inl cycle ↦ ground (arith, listed, cycle)
          | inr new ↦
              let fewer = remaining-add_lt env.flags seen key compiled listed new in
              let body =
                evaluate_compiled-flag_value (evaluate_internal host context env fuel undefined)
                  (result_of fuel (add seen key) undefined) (add seen key)
                  (λ k. evaluate_internal-result_of fuel undefined k (add seen key) (omega arith))
                  compiled fallback in
              ground (arith, listed, new, body, delete-add_new seen key new)
        ]
      ]

  -- Evaluating a flag gives the described result: the off variation while the flag is disabled or a
  -- prerequisite is not met, else what the first matching rule serves, else the default.
  pub evaluate_flag-result_of :
      (key : JsString) (fallback : JsValue)
      → evaluate_flag host context env key fallback
        ≡ result_of (flag_fuel host context env) [] fallback key
  unfolding evaluate_flag
  evaluate_flag-result_of key fallback =
      let ended =
        evaluate_internal-result_of (flag_fuel host context env) fallback key []
          (omega (arith, remaining-le-length env.flags [])) in
      ground (arith, ended)
