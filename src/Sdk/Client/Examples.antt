-- ===== src/Sdk/Client/Examples.antt =====
-- The client's theorems at frames of the sample ruleset.
use flagship_platform.Shared.{
  ◌≡◌, sym, ap, ◌∙◌, ◌≢◌, some, none, ◌∷◌, [], ◌⊎◌, ◌↔◌, inl, inr, In, All, true, if◌then◌else◌,
}
use flagship_platform.Shared.Int.{pos, ◌≤ℤ◌}
use flagship_platform.Js.Text.{JsString, js}
use flagship_platform.Js.Value.{JsValue}
use flagship_platform.Core.Types.{RulesetSnapshot}
use flagship_platform.Core.Samples.{sample_host, visitor, snapshot_of}
use flagship_platform.Core.Evaluate.{index_snapshot}
use flagship_platform.Core.Evaluate.Flags.{evaluate_flag}
use flagship_platform.Sdk.Client.{
  FlagshipOptions, Ended, returned, thrown, Thrown, other_value, empty_client, version, evaluate,
  is_enabled, boolean_or, exposure_of, is_error, ExposureRecord,
}
use flagship_platform.Sdk.Client.Isolation.{calls_due, evaluate_isolated}
use flagship_platform.Sdk.Client.Versions.{
  deliver, holding, deliver-version, deliver-order_irrelevant,
}

abbrev old : RulesetSnapshot
old = snapshot_of (pos 4)

abbrev new : RulesetSnapshot
new = snapshot_of (pos 5)

deliver-version_example :
    (t : RulesetSnapshot) × (deliver (holding old) (new ∷ old ∷ []) ≡ holding t)
    × (old.version ≤ℤ version (deliver (holding old) (new ∷ old ∷ [])))
    × All (λ f. f.version ≤ℤ version (deliver (holding old) (new ∷ old ∷ []))) (new ∷ old ∷ [])
deliver-version_example = deliver-version old (new ∷ old ∷ [])

one_of_two : (s : RulesetSnapshot) → In s (new ∷ old ∷ []) → (s ≡ new) ⊎ (s ≡ old)
one_of_two s (inl e) = inl e
one_of_two s (inr (inl e)) = inr e
one_of_two s (inr (inr m)) = absurd m

versions_differ : new.version ≢ old.version
versions_differ e = cc

distinct :
    (s t : RulesetSnapshot)
    → In s (new ∷ old ∷ [])
    → In t (new ∷ old ∷ [])
    → s.version ≡ t.version
    → s ≡ t
distinct s t m n e = elim (one_of_two s m) [
  | inl p ↦ elim (one_of_two t n) [
    | inl q ↦ p ∙ sym q
    | inr q ↦ absurd (versions_differ (sym (ap (λ x. x.version) p) ∙ (e ∙ ap (λ x. x.version) q)))
  ]
  | inr p ↦ elim (one_of_two t n) [
    | inl q ↦
        absurd (versions_differ (sym (ap (λ x. x.version) q) ∙ (sym e ∙ ap (λ x. x.version) p)))
    | inr q ↦ p ∙ sym q
  ]
]

reordered : (s : RulesetSnapshot) → In s (new ∷ old ∷ []) ↔ In s (old ∷ new ∷ old ∷ [])
reordered s = (λ m. inr m, λ m. elim m [ inl e ↦ inr (inl e) | inr n ↦ n ])

order_irrelevant_example :
    deliver empty_client (new ∷ old ∷ []) ≡ deliver empty_client (old ∷ new ∷ old ∷ [])
order_irrelevant_example =
    deliver-order_irrelevant (new ∷ old ∷ []) (old ∷ new ∷ old ∷ []) distinct reordered

abbrev text_of : JsValue → Ended JsString
text_of v = returned (js "null")

abbrev throwing : ExposureRecord → Ended (Unit {0})
throwing e = thrown (other_value JsValue.null)

abbrev refusing : Thrown → Ended (Unit {0})
refusing e = thrown e

abbrev throwing_options : FlagshipOptions
throwing_options = record {
  bootstrap = none;
  on_exposure = some throwing;
  on_error = some refusing;
}

evaluate_isolated_example :
    (let result =
        evaluate_flag sample_host visitor (index_snapshot new) (js "checkout") JsValue.null in
      let tested =
        evaluate_flag sample_host visitor
          (index_snapshot new)
          (js "checkout")
          (JsValue.boolean true) in
      (evaluate text_of sample_host throwing_options
          (holding new)
          (js "checkout")
          visitor
          JsValue.null
        ≡ (
          returned result,
          if is_error result.reason
              then []
              else calls_due text_of throwing_options
                  (exposure_of (holding new) (js "checkout") visitor result),
        ))
      × ((is_enabled text_of sample_host throwing_options
            (holding new)
            (js "checkout")
            visitor
            true).0
          ≡ returned (boolean_or tested.value true)))
evaluate_isolated_example =
    evaluate_isolated text_of sample_host throwing_options new (js "checkout") visitor JsValue.null
      true
