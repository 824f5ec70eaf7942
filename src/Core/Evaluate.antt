-- ===== src/Core/Evaluate.antt =====
-- packages/core/src/evaluate.ts. The two guard sets are passed as state. A recursion through
-- segments or prerequisites takes fuel, and `none` is a recursion that ran out of it; the fuel that
-- `evaluate_flag` gives is enough (Evaluate/Matching, Evaluate/Prerequisites).
pub mod Examples
pub mod Flags
pub mod Matching
pub mod Prerequisites
pub mod Outcome
use flagship_platform.Shared.{
  ℕ, zero, suc, ◌≡◌, Bool, true, false, not, Option, none, some, List, [], ◌∷◌, ◌++◌, if◌then◌else◌,
  ◌>>=◌, length,
}
use flagship_platform.Js.Text.{JsString, js, str_eq}
use flagship_platform.Js.Set
use flagship_platform.Js.Set.{JsSet, has}
use flagship_platform.Js.Map.{JsMap, get, set}
use flagship_platform.Js.Value.{JsValue, undefined}
use flagship_platform.Js.Host.{Host}
use flagship_platform.Core.Types
use flagship_platform.Core.Types.{
  AttributeValue, RuleNode, RuleNodes, nil, cons, condition, segment, Variation, Serve, fixed,
  rollout, TargetingRule, Prerequisite, Flag, Segment, RulesetSnapshot, EvaluationContext,
  EvaluationReason, off, default, prerequisite_failed, rule_match, error, EvaluationResult,
}
use flagship_platform.Core.Bucketing.{bucket_for, variation_for_bucket}
use flagship_platform.Core.Operators.{apply_operator}

pub record CompiledFlag : Type 0 where
  pub flag : Flag
  pub variations : JsMap Variation

pub record EvaluationEnvironment : Type 0 where
  pub flags : JsMap CompiledFlag
  pub segments : JsMap Segment

-- The loops of `indexSnapshot`.
unfoldable pub index_variations : JsMap Variation → List Variation → JsMap Variation
index_variations m [] = m
index_variations m (v ∷ vs) = index_variations (set m v.key v) vs

abbrev pub compile_flag : Flag → CompiledFlag
compile_flag f = record { flag = f; variations = index_variations [] f.variations }

unfoldable pub index_flags : JsMap CompiledFlag → List Flag → JsMap CompiledFlag
index_flags m [] = m
index_flags m (f ∷ fs) = index_flags (set m f.key (compile_flag f)) fs

unfoldable pub index_segments : JsMap Segment → List Segment → JsMap Segment
index_segments m [] = m
index_segments m (s ∷ ss) = index_segments (set m s.key s) ss

unfoldable pub index_snapshot : RulesetSnapshot → EvaluationEnvironment
index_snapshot snapshot = record {
  flags = index_flags [] snapshot.flags;
  segments = index_segments [] snapshot.segments;
}

unfoldable pub resolve_attribute : EvaluationContext → JsString → Option AttributeValue
resolve_attribute context attribute =
    if str_eq attribute (js "key")
    then some (AttributeValue.string context.key)
    else get context.attributes attribute

-- An answer, and the guard set that the call leaves; `none` inside is `undefined`.
abbrev pub Guarded : Type 0
Guarded = Option (Bool × Option JsSet)

-- seenSegments ?? new Set()
abbrev pub members : Option JsSet → JsSet
members none = []
members (some s) = s

-- What `finally` does: a set that the call made itself is dropped.
abbrev pub leave : Option JsSet → JsString → Option JsSet → Option JsSet
leave none key after = none
leave (some _) key none = none
leave (some _) key (some s) = some (Set.delete s key)

module _ (host : Host) (context : EvaluationContext) where
  -- `matchNode`, where `visit` takes the case of a segment reference.
  unfoldable mutual
    pub match_tree :
        (visit : JsString → Bool → Option JsSet → Guarded) → RuleNode → Option JsSet → Guarded
    match_tree visit (condition attribute operator values visibility) seen =
        some (apply_operator host operator (resolve_attribute context attribute) values, seen)
    match_tree visit (RuleNode.and children) seen = match_all visit children seen
    match_tree visit (RuleNode.or children) seen = match_any visit children seen
    match_tree visit (RuleNode.not children) seen = do
      (all, after) ← match_all visit children seen
      some (not all, after)
    match_tree visit (segment key negate) seen = visit key negate seen

    -- The loop of `and`, and of `not` with the answers swapped.
    pub match_all :
        (visit : JsString → Bool → Option JsSet → Guarded) → RuleNodes → Option JsSet → Guarded
    match_all visit nil seen = some (true, seen)
    match_all visit (cons child children) seen = do
      (matched, after) ← match_tree visit child seen
      let rest = match_all visit children after
      if matched then rest else some (false, after)

    -- The loop of `or`.
    pub match_any :
        (visit : JsString → Bool → Option JsSet → Guarded) → RuleNodes → Option JsSet → Guarded
    match_any visit nil seen = some (false, seen)
    match_any visit (cons child children) seen = do
      (matched, after) ← match_tree visit child seen
      let rest = match_any visit children after
      if matched then some (true, after) else rest

  module _ (env : EvaluationEnvironment) where
    unfoldable pub match_segment : (fuel : ℕ) → JsString → Bool → Option JsSet → Guarded
    match_segment zero key negate seen = none
    match_segment (suc fuel) key negate seen =
        if has (members seen) key then some (false, seen) else elim (get env.segments key) [
          | none ↦ some (false, seen)
          | some found ↦ do
            (matched, after) ←
                match_tree (match_segment fuel) found.when (some (Set.add (members seen) key))
            some (if negate then not matched else matched, leave seen key after)
        ]

    unfoldable pub match_node : (fuel : ℕ) → RuleNode → Option JsSet → Guarded
    match_node fuel node seen = match_tree (match_segment fuel) node seen

    -- More than the number of segments that a chain of references can enter.
    abbrev pub segment_fuel : ℕ
    segment_fuel = suc (length env.segments)
