-- ===== src/Sdk/Client.antt =====
-- packages/sdk-js/src/client.ts. The callbacks of the host application are parameters, which return or
-- throw; a call of one is an entry in the list of calls of a `Run`. `start` and `close`, which only
-- throw "not implemented", are left out.
mod Examples
pub mod Versions
pub mod Isolation
use flagship_platform.Shared.{
  Bool, true, false, Option, none, some, List, [], ◌∷◌, ◌++◌, if◌then◌else◌,
}
use flagship_platform.Shared.Int.{ℤ, negsuc, leb_ℤ}
use flagship_platform.Js.Text.{JsString, js}
use flagship_platform.Js.Value.{JsValue, boolean}
use flagship_platform.Js.Host.{Host}
use flagship_platform.Core.Types.{
  RulesetSnapshot, EvaluationContext, EvaluationReason, error, EvaluationResult,
}
use flagship_platform.Core.Evaluate.{EvaluationEnvironment, index_snapshot}
use flagship_platform.Core.Evaluate.Flags.{failed_with, evaluate_flag}

pub record ExposureRecord : Type 0 where
  pub flag_key : JsString
  pub variation_key : JsString
  pub context_key : JsString
  pub ruleset_version : ℤ
  pub reason : EvaluationReason

-- A value that is thrown: an `Error`, by its message, or another value.
pub data Thrown : Type 0 where
  error_object : (message : JsString) → Thrown
  other_value : JsValue → Thrown

-- How a piece of code ends.
pub data Ended (A : Type 0) : Type 0 where
  returned : A → Ended A
  thrown : Thrown → Ended A

pub record FlagshipOptions : Type 0 where
  pub bootstrap : Option RulesetSnapshot
  pub on_exposure : Option (ExposureRecord → Ended (Unit {0}))
  pub on_error : Option (Thrown → Ended (Unit {0}))

-- A call of `onExposure` or of `onError`.
pub data Call : Type 0 where
  exposed : ExposureRecord → Call
  reported : Thrown → Call

-- Code that may throw: how it ends, and the callbacks that it has called by then.
abbrev pub Run : Type 0 → Type 0
Run A = Ended A × List Call

abbrev pub pure : {A : Type 0} → A → Run A
pure a = (returned a, [])

abbrev pub called_before : {A : Type 0} → List Call → Run A → Run A
called_before calls (ended, more) = (ended, calls ++ more)

abbrev pub continue : {A B : Type 0} → List Call → Ended A → (A → Run B) → Run B
continue calls (returned a) f = called_before calls (f a)
continue calls (thrown e) f = (thrown e, calls)

infixl 5 ◌>>=◌ ◌>>◌
abbrev pub ◌>>=◌ : {A B : Type 0} → Run A → (A → Run B) → Run B
◌>>=◌ (ended, calls) f = continue calls ended f

abbrev pub ◌>>◌ : {B : Type 0} → Run (Unit {0}) → Run B → Run B
m >> n = m >>= λ _. n

-- try … catch
unfoldable pub catching : {A : Type 0} → Run A → (Thrown → Run A) → Run A
catching (returned a, calls) handler = (returned a, calls)
catching (thrown e, calls) handler = called_before calls (handler e)

pub record FlagshipClient : Type 0 where
  pub snapshot : Option RulesetSnapshot
  pub env : Option EvaluationEnvironment

-- #apply
unfoldable pub apply : FlagshipClient → RulesetSnapshot → FlagshipClient
apply client snapshot = record { snapshot = some snapshot; env = some (index_snapshot snapshot) }

abbrev pub empty_client : FlagshipClient
empty_client = record { snapshot = none; env = none }

unfoldable pub construct : FlagshipOptions → FlagshipClient
unfolding apply
construct options = elim options.bootstrap [
  | none ↦ empty_client
  | some snapshot ↦ apply empty_client snapshot
]

-- get version
unfoldable pub version : FlagshipClient → ℤ
version client = elim client.snapshot [ none ↦ negsuc 0 | some held ↦ held.version ]

-- get ready
unfoldable pub ready : FlagshipClient → Bool
ready client = elim client.env [ none ↦ false | some env ↦ true ]

unfoldable pub apply_snapshot : FlagshipClient → RulesetSnapshot → FlagshipClient × Bool
unfolding apply
apply_snapshot client next = elim client.snapshot [
  | none ↦ (apply client next, true)
  | some held ↦
      if leb_ℤ next.version held.version then (client, false) else (apply client next, true)
]

abbrev pub is_error : EvaluationReason → Bool
is_error (error message) = true
is_error _ = false

unfoldable pub exposure_of :
    FlagshipClient → (flag_key : JsString) → EvaluationContext → EvaluationResult → ExposureRecord
unfolding version
exposure_of client flag_key context result = record {
  flag_key = flag_key;
  variation_key = result.variation_key;
  context_key = context.key;
  ruleset_version = version client;
  reason = result.reason;
}

-- typeof value === 'boolean' ? value : fallback
abbrev pub boolean_or : JsValue → Bool → Bool
boolean_or (boolean b) fallback = b
boolean_or _ fallback = fallback

-- `String(v)`, which throws for some values, is the engine's.
module _ (to_text : JsValue → Ended JsString) where
  -- error instanceof Error ? error : new Error(String(error))
  unfoldable pub as_error : Thrown → Run Thrown
  as_error (error_object message) = pure (error_object message)
  as_error (other_value v) = do text ← (to_text v, []); pure (error_object text)

  -- #reportError
  unfoldable pub report_error : FlagshipOptions → Thrown → Run (Unit {0})
  report_error options e = elim options.on_error [
    | none ↦ pure tt
    | some on_error ↦
        catching (do argument ← as_error e; (on_error argument, reported argument ∷ []))
          (λ _. pure tt)
  ]

  -- #recordExposure
  unfoldable pub record_exposure :
      FlagshipOptions
      → FlagshipClient
      → (flag_key : JsString) → EvaluationContext
      → EvaluationResult
      → Run (Unit {0})
  record_exposure options client flag_key context result = elim options.on_exposure [
    | none ↦ pure tt
    | some on_exposure ↦
        let event = exposure_of client flag_key context result in
        if is_error result.reason
        then pure tt
        else catching (on_exposure event, exposed event ∷ []) (report_error options)
  ]

  module _ (host : Host) (options : FlagshipOptions) where
    unfoldable pub evaluate :
        FlagshipClient
        → (flag_key : JsString) → EvaluationContext
        → (fallback : JsValue) → Run EvaluationResult
    evaluate client flag_key context fallback = elim client.env [
      | none ↦ pure (failed_with (js "no ruleset loaded") fallback)
      | some env ↦
          let result = evaluate_flag host context env flag_key fallback in
          do record_exposure options client flag_key context result; pure result
    ]

    unfoldable pub is_enabled :
        FlagshipClient → (flag_key : JsString) → EvaluationContext → (fallback : Bool) → Run Bool
    is_enabled client flag_key context fallback = do
      result ← evaluate client flag_key context (boolean fallback)
      pure (boolean_or result.value fallback)
