-- ===== src/Core/Evaluate/Flags.antt =====
-- packages/core/src/evaluate.ts: `resolveBucketKey`, `resultFor`, `evaluateInternal` and
-- `evaluateFlag`.
use flagship_platform.Shared.{
  ℕ, zero, suc, not, Option, none, some, List, [], ◌∷◌, ◌++◌, if◌then◌else◌, ◌>>=◌, length,
}
use flagship_platform.Js.Text.{JsString, js, str_eq}
use flagship_platform.Js.Set
use flagship_platform.Js.Set.{JsSet, has}
use flagship_platform.Js.Map.{get}
use flagship_platform.Js.Value.{JsValue, undefined}
use flagship_platform.Js.Host.{Host}
use flagship_platform.Core.Types.{
  string, number, boolean, null, Serve, fixed, rollout, TargetingRule, Prerequisite, Flag,
  Distribution, EvaluationContext, EvaluationReason, off, default, prerequisite_failed, rule_match,
  error, EvaluationResult,
}
use flagship_platform.Core.Bucketing.{bucket_for, variation_for_bucket}
use flagship_platform.Core.Evaluate.{
  CompiledFlag, EvaluationEnvironment, resolve_attribute, match_node, segment_fuel,
}

abbrev quoted : JsString → JsString → JsString
quoted text key = text ++ b'"' ∷ (key ++ b'"' ∷ [])

-- A result with no variation.
abbrev pub failed_with : JsString → JsValue → EvaluationResult
failed_with message fallback = record {
  value = fallback;
  variation_key = [];
  reason = error message;
  bucket = none;
}

abbrev pub unknown_flag : JsString → JsString
unknown_flag key = quoted (js "unknown flag ") key

abbrev pub prerequisite_cycle : JsString → JsString
prerequisite_cycle key = quoted (js "prerequisite cycle at ") key

abbrev pub malformed_rollout : JsString → JsString
malformed_rollout id = quoted (js "malformed rollout in rule ") id

abbrev pub unknown_variation : JsString → JsString
unknown_variation key = quoted (js "unknown variation ") key

unfoldable pub result_for :
    CompiledFlag
    → (variation_key : JsString) → EvaluationReason
    → (fallback : JsValue) → (bucket : Option ℕ) → EvaluationResult
result_for compiled key reason fallback bucket = elim (get compiled.variations key) [
  | none ↦ record {
    value = fallback;
    variation_key = key;
    reason = error (unknown_variation key);
    bucket = none;
  }
  | some variation ↦ record {
    value = variation.value;
    variation_key = key;
    reason = reason;
    bucket = bucket;
  }
]

module _ (host : Host) (context : EvaluationContext) where
  unfoldable pub resolve_bucket_key : Flag → Option JsString
  resolve_bucket_key flag = elim (resolve_attribute context flag.bucket_by) [
    | none ↦ none
    | some null ↦ none
    | some (string s) ↦ some s
    | some (number n) ↦ some (host.number_to_string n)
    | some (boolean b) ↦ some (if b then js "true" else js "false")
  ]

  -- What a matching rule with a rollout serves; the `break` goes on to the default.
  unfoldable pub serve_rollout :
      CompiledFlag → (rule_id : JsString) → List Distribution → JsValue → EvaluationResult
  serve_rollout compiled rule_id distribution fallback =
      let flag = compiled.flag in
      elim (resolve_bucket_key flag) [
        | none ↦ result_for compiled flag.default_variation_key default fallback none
        | some bucket_key ↦
            let bucket = bucket_for flag.key flag.salt bucket_key in
            elim (variation_for_bucket distribution bucket) [
              | none ↦ failed_with (malformed_rollout rule_id) fallback
              | some variation_key ↦
                  result_for compiled variation_key (rule_match rule_id) fallback (some bucket)
            ]
      ]

  unfoldable pub serve_rule :
      CompiledFlag → (rule_id : JsString) → Serve → (fallback : JsValue) → EvaluationResult
  serve_rule compiled rule_id (fixed key) fallback =
      result_for compiled key (rule_match rule_id) fallback none
  serve_rule compiled rule_id (rollout distribution) fallback =
      serve_rollout compiled rule_id distribution fallback

  module _ (env : EvaluationEnvironment) where
    -- The loop over the targeting rules: the first match wins.
    unfoldable pub serve_rules :
        CompiledFlag → List TargetingRule → JsValue → Option EvaluationResult
    serve_rules compiled [] fallback =
        some (result_for compiled compiled.flag.default_variation_key default fallback none)
    serve_rules compiled (rule ∷ rules) fallback = do
      (matched, after) ← match_node host context env (segment_fuel host context env) rule.when none
      let rest = serve_rules compiled rules fallback
      if matched then some (serve_rule compiled rule.id rule.serve fallback) else rest

    -- The loop over the prerequisites: the first that fails, and the guard set.
    unfoldable pub first_failed :
        (evaluate : JsString → JsSet → Option (EvaluationResult × JsSet))
        → List Prerequisite
        → JsSet
        → Option (Option Prerequisite × JsSet)
    first_failed evaluate [] seen = some (none, seen)
    first_failed evaluate (p ∷ ps) seen = do
      (upstream, after) ← evaluate p.flag_key seen
      let rest = first_failed evaluate ps after
      if str_eq upstream.variation_key p.variation_key then rest else some (some p, after)

    -- The body of the `try` block.
    unfoldable pub evaluate_compiled :
        (evaluate : JsString → JsSet → Option (EvaluationResult × JsSet))
        → CompiledFlag
        → (fallback : JsValue) → JsSet
        → Option (EvaluationResult × JsSet)
    evaluate_compiled evaluate compiled fallback seen =
        let flag = compiled.flag in
        if not flag.enabled
        then some (result_for compiled flag.off_variation_key off fallback none, seen)
        else do
          (failed, after) ← first_failed evaluate flag.prerequisites seen
          elim failed [
            | some p ↦ some (
              result_for compiled flag.off_variation_key (prerequisite_failed p.flag_key) fallback
                  none,
              after,
            )
            | none ↦ do result ← serve_rules compiled flag.rules fallback; some (result, after)
          ]

    unfoldable pub evaluate_internal :
        (fuel : ℕ) → (fallback : JsValue) → JsString → JsSet → Option (EvaluationResult × JsSet)
    evaluate_internal zero fallback key seen = none
    evaluate_internal (suc fuel) fallback key seen = elim (get env.flags key) [
      | none ↦ some (failed_with (unknown_flag key) fallback, seen)
      | some compiled ↦
          if has seen key then some (failed_with (prerequisite_cycle key) fallback, seen) else do
            (result, after) ←
                evaluate_compiled (evaluate_internal fuel undefined) compiled fallback
                  (Set.add seen key)
            some (result, Set.delete after key)
    ]

    -- More than the number of flags that a chain of prerequisites can enter.
    abbrev pub flag_fuel : ℕ
    flag_fuel = suc (length env.flags)

    -- `none`, the recursion that does not end, stands for what the `catch` would see.
    unfoldable pub evaluate_flag : (flag_key : JsString) → (fallback : JsValue) → EvaluationResult
    evaluate_flag flag_key fallback = elim (evaluate_internal flag_fuel fallback flag_key []) [
      | none ↦ failed_with (js "evaluation failed") fallback
      | some (result, after) ↦ result
    ]
