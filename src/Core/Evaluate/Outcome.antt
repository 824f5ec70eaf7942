-- ===== src/Core/Evaluate/Outcome.antt =====
-- What a result of `evaluateFlag` can be.
use flagship_platform.Shared.{
  ℕ, ◌≡◌, refl, Bool, true, false, Option, none, some, List, [], ◌∷◌, arith, ◌⊎◌, All, Bool-cases,
  Option-cases, inl, inr,
}
use flagship_platform.Js.Text.{JsString}
use flagship_platform.Js.Map.{get}
use flagship_platform.Js.Set.{has}
use flagship_platform.Js.Value.{JsValue}
use flagship_platform.Js.Host.{Host}
use flagship_platform.Core.Types.{
  Variation, Serve, fixed, rollout, Distribution, TargetingRule, EvaluationContext,
  EvaluationReason, error, off, default, rule_match, prerequisite_failed, EvaluationResult,
}
use flagship_platform.Core.Bucketing.{bucket_for, variation_for_bucket, is_valid_distribution}
use flagship_platform.Core.Bucketing.Traffic.{rollout_total, variation_for_bucket-All}
use flagship_platform.Core.Evaluate.{CompiledFlag, EvaluationEnvironment}
use flagship_platform.Core.Evaluate.Flags.{
  result_for, resolve_bucket_key, serve_rollout, serve_rule, evaluate_flag,
}
use flagship_platform.Core.Evaluate.Matching.{rule_value}
use flagship_platform.Core.Evaluate.Prerequisites.{
  unmet, first_match, flag_value, result_of, evaluate_flag-result_of,
}

-- Either an error that carries the caller's fallback, or the value of a variation that the flag
-- declares, under that variation's key.
abbrev pub IsHonest : CompiledFlag → JsValue → EvaluationResult → Type 0
IsHonest compiled fallback r =
    ((m : JsString) × (r.reason ≡ error m) × (r.value ≡ fallback))
    ⊎ ((v : Variation) × (get compiled.variations r.variation_key ≡ some v) × (r.value ≡ v.value))

result_for-IsHonest :
    (compiled : CompiledFlag) (key : JsString) (reason : EvaluationReason) (fallback : JsValue)
    (bucket : Option ℕ)
    → IsHonest compiled fallback (result_for compiled key reason fallback bucket)
unfolding result_for
result_for-IsHonest compiled key reason fallback bucket =
    elim (Option-cases (get compiled.variations key)) [
      | inl missing ↦ rw (missing, result_for) (inl (_, refl, refl))
      | inr (v, found) ↦ rw (found, result_for) (inr (v, found, refl))
    ]

abbrev pub Declares : CompiledFlag → JsString → Type 0
Declares compiled key = (v : Variation) × (get compiled.variations key ≡ some v)

-- What a rule of a validated flag serves.
abbrev pub IsServable : CompiledFlag → Serve → Type 0
IsServable compiled (fixed key) = Declares compiled key
IsServable compiled (rollout d) =
    (is_valid_distribution d ≡ true) × All (λ e. Declares compiled e.variation_key) d

-- What `validateFlag` asks of a flag's variations and rules.
pub record IsValidated (compiled : CompiledFlag) : Type 0 where
  pub default_declared : Declares compiled compiled.flag.default_variation_key
  pub off_declared : Declares compiled compiled.flag.off_variation_key
  pub servable : All (λ r. IsServable compiled r.serve) compiled.flag.rules

abbrev pub is_error : EvaluationReason → Bool
is_error (error m) = true
is_error _ = false

result_for-reason :
    (compiled : CompiledFlag) (key : JsString) (reason : EvaluationReason) (fallback : JsValue)
    (bucket : Option ℕ)
    → Declares compiled key
    → (result_for compiled key reason fallback bucket).reason ≡ reason
unfolding result_for
result_for-reason compiled key reason fallback bucket (v, found) = rw (found, result_for) refl

module _ (host : Host) (context : EvaluationContext) where
  serve_rollout-IsHonest :
      (compiled : CompiledFlag) (id : JsString) (d : List Distribution) (fallback : JsValue)
      → IsHonest compiled fallback (serve_rollout host context compiled id d fallback)
  unfolding serve_rollout
  serve_rollout-IsHonest compiled id d fallback =
      elim (Option-cases (resolve_bucket_key host context compiled.flag)) [
        | inl missing ↦
            rw (missing, serve_rollout)
              (result_for-IsHonest compiled compiled.flag.default_variation_key default fallback
                none)
        | inr (bucket_key, found) ↦
            let bucket = bucket_for compiled.flag.key compiled.flag.salt bucket_key in
            elim (Option-cases (variation_for_bucket d bucket)) [
              | inl short ↦ rw (found, short, serve_rollout) (inl (_, refl, refl))
              | inr (key, chosen) ↦
                  rw (found, chosen, serve_rollout)
                    (result_for-IsHonest compiled key (rule_match id) fallback (some bucket))
            ]
      ]

  serve_rule-IsHonest :
      (compiled : CompiledFlag) (id : JsString) (serve : Serve) (fallback : JsValue)
      → IsHonest compiled fallback (serve_rule host context compiled id serve fallback)
  unfolding serve_rule
  serve_rule-IsHonest compiled id (fixed key) fallback =
      result_for-IsHonest compiled key (rule_match id) fallback none
  serve_rule-IsHonest compiled id (rollout d) fallback =
      serve_rollout-IsHonest compiled id d fallback

  serve_rollout-reason :
      (compiled : CompiledFlag) (id : JsString) (d : List Distribution) (fallback : JsValue)
      → IsValidated compiled
      → IsServable compiled (rollout d)
      → is_error (serve_rollout host context compiled id d fallback).reason ≡ false
  unfolding serve_rollout
  serve_rollout-reason compiled id d fallback v (valid, declared) =
      elim (Option-cases (resolve_bucket_key host context compiled.flag)) [
        | inl missing ↦
            let r =
              result_for-reason compiled compiled.flag.default_variation_key default fallback none
                v.default_declared in
            rw (missing, serve_rollout, r) refl
        | inr (bucket_key, found) ↦
            let flag = compiled.flag in
            let bucket = bucket_for flag.key flag.salt bucket_key in
            let (key, chosen) = rollout_total d flag.key flag.salt bucket_key valid in
            let known = variation_for_bucket-All (Declares compiled) d bucket key declared chosen in
            let r = result_for-reason compiled key (rule_match id) fallback (some bucket) known in
            rw (found, chosen, serve_rollout, r) refl
      ]

  serve_rule-reason :
      (compiled : CompiledFlag) (id : JsString) (serve : Serve) (fallback : JsValue)
      → IsValidated compiled
      → IsServable compiled serve
      → is_error (serve_rule host context compiled id serve fallback).reason ≡ false
  unfolding serve_rule
  serve_rule-reason compiled id (fixed key) fallback v s =
      rw (result_for-reason compiled key (rule_match id) fallback none s) refl
  serve_rule-reason compiled id (rollout d) fallback v s =
      serve_rollout-reason compiled id d fallback v s

  module _ (env : EvaluationEnvironment) where
    first_match-All :
        (P : TargetingRule → Type 0) (rules : List TargetingRule) (r : TargetingRule)
        → All P rules
        → first_match host context env rules ≡ some r
        → P r
    unfolding first_match
    first_match-All P [] r h e = cc
    first_match-All P (x ∷ xs) r (p, h) e = elim (Bool-cases (rule_value host context env x.when)) [
      | inl now ↦ let same : x ≡ r = ground arith in rw (← same) p
      | inr later ↦ first_match-All P xs r h (rw later at e)
    ]

    flag_value-IsHonest :
        (result : JsString → EvaluationResult) (compiled : CompiledFlag) (fallback : JsValue)
        → IsHonest compiled fallback (flag_value host context env result compiled fallback)
    unfolding flag_value result_for
    flag_value-IsHonest result compiled fallback =
        let flag = compiled.flag in
        elim (Bool-cases flag.enabled) [
          | inr disabled ↦
              rw (disabled, flag_value)
                (result_for-IsHonest compiled flag.off_variation_key off fallback none)
          | inl enabled ↦ elim (Option-cases (unmet result flag.prerequisites)) [
            | inr (p, failed) ↦
                rw (enabled, failed, flag_value)
                  (result_for-IsHonest compiled flag.off_variation_key
                    (prerequisite_failed p.flag_key) fallback none)
            | inl met ↦ elim (Option-cases (first_match host context env flag.rules)) [
              | inl unmatched ↦
                  rw (enabled, met, unmatched, flag_value)
                    (result_for-IsHonest compiled flag.default_variation_key default fallback none)
              | inr (r, matched) ↦
                  rw (enabled, met, matched, flag_value)
                    (serve_rule-IsHonest compiled r.id r.serve fallback)
            ]
          ]
        ]

    flag_value-reason :
        (result : JsString → EvaluationResult) (compiled : CompiledFlag) (fallback : JsValue)
        → IsValidated compiled
        → is_error (flag_value host context env result compiled fallback).reason ≡ false
    unfolding flag_value result_for
    flag_value-reason result compiled fallback v =
        let flag = compiled.flag in
        elim (Bool-cases flag.enabled) [
          | inr disabled ↦
              rw
                (
                  disabled,
                  flag_value,
                  result_for-reason compiled flag.off_variation_key off fallback none
                      v.off_declared,
                )
                refl
          | inl enabled ↦ elim (Option-cases (unmet result flag.prerequisites)) [
            | inr (p, failed) ↦
                rw
                  (
                    enabled,
                    failed,
                    flag_value,
                    result_for-reason compiled flag.off_variation_key
                        (prerequisite_failed p.flag_key) fallback none v.off_declared,
                  )
                  refl
            | inl met ↦ elim (Option-cases (first_match host context env flag.rules)) [
              | inl unmatched ↦
                  rw
                    (
                      enabled,
                      met,
                      unmatched,
                      flag_value,
                      result_for-reason compiled flag.default_variation_key default fallback none
                          v.default_declared,
                    )
                    refl
              | inr (r, matched) ↦
                  rw (enabled, met, matched, flag_value)
                    (serve_rule-reason compiled r.id r.serve fallback v (
                      first_match-All (λ x. IsServable compiled x.serve) flag.rules r v.servable
                        matched))
            ]
          ]
        ]

    -- Every result for a flag of the environment is honest: an error with the caller's fallback, or
    -- the value that the flag declares for the variation that the result names.
    pub evaluate_flag-IsHonest :
        (key : JsString) (fallback : JsValue) (compiled : CompiledFlag)
        → get env.flags key ≡ some compiled
        → IsHonest compiled fallback (evaluate_flag host context env key fallback)
    evaluate_flag-IsHonest key fallback compiled listed =
        rw (evaluate_flag-result_of host context env key fallback)
          (unfold result_of has in rw (listed, result_of) (flag_value-IsHonest _ compiled fallback))

    -- A flag whose default, off and served variations are declared, and whose rollouts are valid, never
    -- evaluates to an error.
    pub evaluate_flag-never_error :
        (key : JsString) (fallback : JsValue) (compiled : CompiledFlag)
        → get env.flags key ≡ some compiled
        → IsValidated compiled
        → is_error (evaluate_flag host context env key fallback).reason ≡ false
    evaluate_flag-never_error key fallback compiled listed v =
        rw (evaluate_flag-result_of host context env key fallback)
          (unfold result_of has in rw (listed, result_of) (flag_value-reason _ compiled fallback v))
