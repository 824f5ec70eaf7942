-- ===== src/Core/Evaluate/Matching.antt =====
-- `matchNode` against Boolean algebra: what it answers, that it ends, and that it leaves the guard
-- set as it was.
use flagship_platform.Shared.{
  ℕ, zero, suc, ◌<◌, ◌≡◌, refl, Bool, true, false, not, ◌&&◌, ◌||◌, Option, none, some, [], arith,
  if◌then◌else◌, Bool-cases, Option-cases, inl, inr,
}
use flagship_platform.Js.Text.{JsString}
use flagship_platform.Js.Set.{JsSet, has, add, delete-add_new}
use flagship_platform.Js.Map.{get}
use flagship_platform.Js.Map.Counting.{remaining, remaining-le-length, remaining-add_lt}
use flagship_platform.Js.Host.{Host}
use flagship_platform.Core.Types.{
  RuleNode, RuleNodes, nil, cons, condition, segment, EvaluationContext,
}
use flagship_platform.Core.Operators.{apply_operator}
use flagship_platform.Core.Evaluate.{
  EvaluationEnvironment, resolve_attribute, Guarded, members, leave, match_tree, match_all,
  match_any, match_segment, match_node, segment_fuel,
}

module _ (host : Host) (context : EvaluationContext) where
  -- Boolean algebra over the tree, where `value` is what each segment reference stands for.
  unfoldable mutual
    pub holds : (value : JsString → Bool → Bool) → RuleNode → Bool
    holds value (condition attribute operator values visibility) =
        apply_operator host operator (resolve_attribute context attribute) values
    holds value (RuleNode.and children) = all_hold value children
    holds value (RuleNode.or children) = some_hold value children
    holds value (RuleNode.not children) = not (all_hold value children)
    holds value (segment key negate) = value key negate

    pub all_hold : (value : JsString → Bool → Bool) → RuleNodes → Bool
    all_hold value nil = true
    all_hold value (cons child children) = holds value child && all_hold value children

    pub some_hold : (value : JsString → Bool → Bool) → RuleNodes → Bool
    some_hold value nil = false
    some_hold value (cons child children) = holds value child || some_hold value children

  -- What a segment reference stands for, below the segments in `seen`.
  unfoldable pub segment_value :
      EvaluationEnvironment → (depth : ℕ) → (seen : JsSet) → JsString → Bool → Bool
  segment_value env zero seen key negate = false
  segment_value env (suc depth) seen key negate =
      if has seen key then false else elim (get env.segments key) [
        | none ↦ false
        | some found ↦
            let matched = holds (segment_value env depth (add seen key)) found.when in
            if negate then not matched else matched
      ]

  module _ (visit : JsString → Bool → Option JsSet → Guarded) (value : JsString → Bool → Bool)
      (seen : Option JsSet)
      (answers : (k : JsString) (n : Bool) → visit k n seen ≡ some (value k n, seen)) where
    mutual
      unfolding match_tree holds

      match_tree-holds :
          (node : RuleNode)
          → match_tree host context visit node seen ≡ some (holds value node, seen)
      match_tree-holds (condition a o vs v) = refl
      match_tree-holds (RuleNode.and children) = match_all-all_hold children
      match_tree-holds (RuleNode.or children) = match_any-some_hold children
      match_tree-holds (RuleNode.not children) = rw (match_all-all_hold children) refl
      match_tree-holds (segment k n) = answers k n

      match_all-all_hold :
          (nodes : RuleNodes)
          → match_all host context visit nodes seen ≡ some (all_hold value nodes, seen)
      match_all-all_hold nil = refl
      match_all-all_hold (cons c cs) = rw (match_tree-holds c, match_all-all_hold cs) (ground arith)

      match_any-some_hold :
          (nodes : RuleNodes)
          → match_any host context visit nodes seen ≡ some (some_hold value nodes, seen)
      match_any-some_hold nil = refl
      match_any-some_hold (cons c cs) =
          rw (match_tree-holds c, match_any-some_hold cs) (ground arith)

  module _ (env : EvaluationEnvironment) where
    leave-add :
        (seen : Option JsSet) (key : JsString)
        → has (members seen) key ≡ false
        → leave seen key (some (add (members seen) key)) ≡ seen
    leave-add none key h = refl
    leave-add (some s) key h = ground (arith, delete-add_new s key h)

    match_segment-value :
        (fuel : ℕ) (key : JsString) (negate : Bool) (seen : Option JsSet)
        → remaining env.segments (members seen) < fuel
        → match_segment host context env fuel key negate seen
          ≡ some (segment_value env fuel (members seen) key negate, seen)
    unfolding match_segment segment_value
    match_segment-value zero key negate seen h = absurd (omega arith)
    match_segment-value (suc fuel) key negate seen h = elim (Bool-cases (has (members seen) key)) [
      | inl cycle ↦ rw cycle refl
      | inr new ↦ elim (Option-cases (get env.segments key)) [
        | inl unknown ↦ rw (new, unknown) refl
        | inr (found, listed) ↦
            let inner = some (add (members seen) key) in
            let fewer = remaining-add_lt env.segments (members seen) key found listed new in
            let tree =
              match_tree-holds (match_segment host context env fuel)
                (segment_value env fuel (members inner)) inner
                (λ k n. match_segment-value fuel k n inner (omega arith)) found.when in
            rw (new, listed, tree, leave-add seen key new) refl
      ]
    ]

    -- What a rule's tree means in an environment.
    unfoldable pub rule_value : RuleNode → Bool
    rule_value node = holds (segment_value env (segment_fuel host context env) []) node

    -- With the fuel that evaluation gives, a rule's tree is matched to the end, the answer is that
    -- of Boolean algebra, and the guard set is left as it was.
    pub match_node-rule_value :
        (node : RuleNode)
        → match_node host context env (segment_fuel host context env) node none
          ≡ some (rule_value node, none)
    unfolding match_node rule_value
    match_node-rule_value node =
        match_tree-holds (match_segment host context env (segment_fuel host context env))
          (segment_value env (segment_fuel host context env) []) none
          (λ k n.
            match_segment-value (segment_fuel host context env) k n none
              (omega (arith, remaining-le-length env.segments [])))
          node
