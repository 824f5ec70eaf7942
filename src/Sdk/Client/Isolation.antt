-- ===== src/Sdk/Client/Isolation.antt =====
-- What the host application sees of `evaluate` and of `isEnabled`, whatever its callbacks do.
use flagship_platform.Shared.{
  ◌≡◌, refl, append-nil, ◌∙◌, ap, false, none, some, List, [], ◌∷◌, if◌then◌else◌, Bool, Bool-cases,
  inl, inr, ◌⊎◌, Option-cases,
}
use flagship_platform.Js.Text.{JsString}
use flagship_platform.Js.Value.{JsValue}
use flagship_platform.Js.Host.{Host}
use flagship_platform.Core.Types.{RulesetSnapshot, EvaluationContext, EvaluationResult}
use flagship_platform.Core.Evaluate.{index_snapshot}
use flagship_platform.Core.Evaluate.Flags.{evaluate_flag}
use flagship_platform.Sdk.Client.{
  FlagshipOptions, FlagshipClient, Call, exposed, reported, ExposureRecord, is_error, exposure_of,
  Thrown, error_object, other_value, Ended, returned, thrown, as_error, report_error, catching,
  record_exposure, evaluate, boolean_or, is_enabled, pure, Run, ◌>>=◌,
}
use flagship_platform.Sdk.Client.Versions.{holding}

Ended-cases :
    {A : Type 0} (ended : Ended A)
    → ((a : A) × (ended ≡ returned a)) ⊎ ((e : Thrown) × (ended ≡ thrown e))
Ended-cases (returned a) = inl (a, refl)
Ended-cases (thrown e) = inr (e, refl)

-- A callback whose throw is swallowed.
swallowed :
    (ended : Ended (Unit {0})) (call : Call)
    → catching (ended, call ∷ []) (λ _. pure tt) ≡ (returned tt, call ∷ [])
unfolding catching
swallowed (returned tt) call = refl
swallowed (thrown e) call = refl

module _ (to_text : JsValue → Ended JsString) where
  -- The calls of `onError` that are due when `onExposure` ends so: one with the `Error` that was
  -- thrown, or with an `Error` of the text of what was thrown, if it has a text.
  unfoldable pub reports_due : Ended (Unit {0}) → List Call
  reports_due (returned _) = []
  reports_due (thrown (error_object message)) = reported (error_object message) ∷ []
  reports_due (thrown (other_value v)) = elim (to_text v) [
    | returned text ↦ reported (error_object text) ∷ []
    | thrown _ ↦ []
  ]

  -- All calls that are due for an event.
  unfoldable pub calls_due : FlagshipOptions → ExposureRecord → List Call
  calls_due options event = elim options.on_exposure [
    | none ↦ []
    | some on_exposure ↦ elim options.on_error [
      | none ↦ exposed event ∷ []
      | some _ ↦ exposed event ∷ reports_due (on_exposure event)
    ]
  ]

  reporting :
      (on_error : Thrown → Ended (Unit {0})) (e : Thrown)
      → catching
          (do argument ← as_error to_text e; (on_error argument, reported argument ∷ []))
          (λ _. pure tt)
        ≡ (returned tt, reports_due (thrown e))
  unfolding as_error reports_due
  reporting on_error (error_object message) =
      swallowed (on_error (error_object message)) (reported (error_object message))
  reporting on_error (other_value v) = elim (Ended-cases (to_text v)) [
    | inl (text, has) ↦
        rw (reports_due, has)
          (swallowed (on_error (error_object text)) (reported (error_object text)))
    | inr (e, has) ↦ rw (reports_due, has) (unfold catching in refl)
  ]

  report_error-ends :
      (options : FlagshipOptions) (e : Thrown)
      → report_error to_text options e
        ≡ (returned tt, elim options.on_error [ none ↦ [] | some _ ↦ reports_due (thrown e) ])
  unfolding report_error
  report_error-ends options e = elim (Option-cases options.on_error) [
    | inl missing ↦ rw missing refl
    | inr (on_error, given) ↦ rw given (reporting on_error e)
  ]

  recording :
      (options : FlagshipOptions) (on_exposure : ExposureRecord → Ended (Unit {0}))
      (event : ExposureRecord) (ended : Ended (Unit {0}))
      → options.on_exposure ≡ some on_exposure
      → on_exposure event ≡ ended
      → catching (ended, exposed event ∷ []) (report_error to_text options)
        ≡ (returned tt, calls_due options event)
  unfolding catching calls_due
  recording options on_exposure event (returned tt) given ran =
      elim (Option-cases options.on_error) [
        | inl missing ↦ rw (given, missing) refl
        | inr (on_error, there) ↦ rw (given, there, ran) (unfold reports_due in refl)
      ]
  recording options on_exposure event (thrown e) given ran =
      rw (report_error-ends options e) (elim (Option-cases options.on_error) [
        | inl missing ↦ rw (given, missing) refl
        | inr (on_error, there) ↦ rw (given, there, ran) refl
      ])

  -- The calls in a run that returns.
  with_calls :
      (calls due : List Call) (run : Run (Unit {0}))
      → run ≡ (returned tt, due)
      → due ≡ calls
      → run ≡ (returned tt, calls)
  with_calls calls due run ends same = ends ∙ ap (λ c. (returned tt, c)) same

  recorded :
      (options : FlagshipOptions) (client : FlagshipClient) (key : JsString)
      (context : EvaluationContext) (result : EvaluationResult) (calls : List Call)
      → is_error result.reason ≡ false
      → calls_due options (exposure_of client key context result) ≡ calls
      → record_exposure to_text options client key context result ≡ (returned tt, calls)
  unfolding record_exposure
  recorded options client key context result calls served due =
      let event = exposure_of client key context result in
      elim (Option-cases options.on_exposure) [
        | inl missing ↦
            let none_due : [] ≡ calls = (unfold calls_due in rw missing at due) in
            rw (record_exposure, missing) (ap (λ c. (returned tt, c)) none_due)
        | inr (on_exposure, given) ↦
            let ends =
              with_calls calls _ _
                (recording options on_exposure event (on_exposure event) given refl) due in
            rw (record_exposure, given) (rw served ends)
      ]

  record_exposure-ends :
      (options : FlagshipOptions) (client : FlagshipClient) (key : JsString)
      (context : EvaluationContext) (result : EvaluationResult)
      → record_exposure to_text options client key context result ≡ (
        returned tt,
        if is_error result.reason
            then []
            else calls_due options (exposure_of client key context result),
      )
  unfolding record_exposure
  record_exposure-ends options client key context result =
      elim (Bool-cases (is_error result.reason)) [
        | inl failed ↦ elim (Option-cases options.on_exposure) [
          | inl missing ↦ rw (record_exposure, missing) (rw failed refl)
          | inr (on_exposure, given) ↦ rw (record_exposure, given) (rw failed refl)
        ]
        | inr served ↦ rw served (recorded options client key context result _ served refl)
      ]

  -- With a ruleset held, `evaluate` returns, whatever the callbacks throw and whether or not a thrown
  -- value has a text: the result is that of the evaluator on the held snapshot. For a result that is
  -- an error no callback is called. Otherwise `onExposure`, where it is given, is called once with the
  -- exposure, and when it throws, `onError`, where it is given, is called once, with the `Error` thrown
  -- or with an `Error` of the text of the thrown value; for a value without a text it is not called.
  -- `isEnabled` returns as well, the value when it is a Boolean and the fallback when it is not.
  pub evaluate_isolated :
      (host : Host) (options : FlagshipOptions) (s : RulesetSnapshot) (key : JsString)
      (context : EvaluationContext) (fallback : JsValue) (otherwise : Bool)
      → (let result = evaluate_flag host context (index_snapshot s) key fallback in
          let tested =
            evaluate_flag host context (index_snapshot s) key (JsValue.boolean otherwise) in
          (evaluate to_text host options (holding s) key context fallback ≡ (
            returned result,
            if is_error result.reason
                then []
                else calls_due options (exposure_of (holding s) key context result),
          ))
          × ((is_enabled to_text host options (holding s) key context otherwise).0
              ≡ returned (boolean_or tested.value otherwise)))
  unfolding evaluate is_enabled
  evaluate_isolated host options s key context fallback otherwise =
      let result = evaluate_flag host context (index_snapshot s) key fallback in
      let tested = evaluate_flag host context (index_snapshot s) key (JsValue.boolean otherwise) in
      (
        rw (record_exposure-ends options (holding s) key context result)
            (ap (λ calls. (returned result, calls)) (append-nil _)),
        rw (record_exposure-ends options (holding s) key context tested) refl,
      )
