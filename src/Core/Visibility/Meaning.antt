-- ===== src/Core/Visibility/Meaning.antt =====
-- What filtering keeps: the meaning of every rule that stays in the client payload.
use flagship_platform.Shared.{
  ℕ, zero, suc, ◌<◌, ◌≡◌, refl, sym, ◌∙◌, ap, subst, Bool, true, false, not, ◌&&◌, none, some, List,
  [], ◌∷◌, ◌++◌, arith, In, filter, ◌⊎◌, Bool-cases, Option-cases, inl, inr, and-true,
}
use flagship_platform.Js.Text.{JsString, str_eq, str_eq_iff}
use flagship_platform.Js.Set.{JsSet, has, add}
use flagship_platform.Js.Map.{JsMap, get, set, get-set}
use flagship_platform.Js.Map.Counting.{remaining, remaining-le-length, remaining-add_lt}
use flagship_platform.Js.Host.{Host}
use flagship_platform.Core.Types.{
  RuleNode, RuleNodes, nil, cons, condition, segment, Segment, TargetingRule, RulesetSnapshot,
  EvaluationContext,
}
use flagship_platform.Core.Evaluate.{
  EvaluationEnvironment, index_segments, index_snapshot, match_node, segment_fuel,
}
use flagship_platform.Core.Evaluate.Matching.{
  holds, all_hold, some_hold, segment_value, rule_value, match_node-rule_value,
}
use flagship_platform.Core.Visibility.{
  contains_server_only, referenced_segments, referenced_by_all, all_in, tree_is_safe,
  client_safe_segments, is_rule_client_safe,
}
use flagship_platform.Core.Visibility.Fixpoint.{IsLeastSafe, client_safe_segments-IsLeastSafe}
use flagship_platform.Core.Visibility.Leaks.{HasDistinctKeys, safe_tree_of_key, client_payload}

mutual
  refs_in : RuleNode → JsSet → Bool
  refs_in (condition attribute operator values visibility) safe = true
  refs_in (RuleNode.and children) safe = all_refs_in children safe
  refs_in (RuleNode.or children) safe = all_refs_in children safe
  refs_in (RuleNode.not children) safe = all_refs_in children safe
  refs_in (segment key negate) safe = has safe key

  all_refs_in : RuleNodes → JsSet → Bool
  all_refs_in nil safe = true
  all_refs_in (cons child children) safe = refs_in child safe && all_refs_in children safe

all_in-append : (s t safe : JsSet) → all_in (s ++ t) safe ≡ (all_in s safe && all_in t safe)
unfolding all_in
all_in-append [] t safe = refl
all_in-append (k ∷ s) t safe = ground (arith, all_in-append s t safe)

has_of_all_in :
    (s safe : JsSet) (k : JsString) → all_in s safe ≡ true → has s k ≡ true → has safe k ≡ true
unfolding all_in has
has_of_all_in [] safe k h m = cc
has_of_all_in (j ∷ s) safe k h m =
    let (here, later) = and-true {a = has safe j} h in
    ground (arith, here, has_of_all_in s safe k later, str_eq_iff j k)

all_in-add :
    (s safe : JsSet) (k : JsString)
    → all_in (add s k) safe ≡ true
    → (has safe k ≡ true) × (all_in s safe ≡ true)
unfolding add
all_in-add s safe k h = elim (Bool-cases (has s k)) [
  | inl old ↦
      let inside : all_in s safe ≡ true = ground (arith, old, h) in
      (has_of_all_in s safe k inside old, inside)
  | inr new ↦
      let both : all_in (s ++ k ∷ []) safe ≡ true = ground (arith, new, h) in
      unfold all_in in
      (
        ground (arith, all_in-append s (k ∷ []) safe, both),
        ground (arith, all_in-append s (k ∷ []) safe, both),
      )
]

mutual
  unfolding referenced_segments refs_in

  refs_in_of_all_in :
      (tree : RuleNode) (into safe : JsSet)
      → all_in (referenced_segments tree into) safe ≡ true
      → (refs_in tree safe ≡ true) × (all_in into safe ≡ true)
  refs_in_of_all_in (condition a o vs v) into safe h = (refl, h)
  refs_in_of_all_in (RuleNode.and children) into safe h = all_refs_in_of_all_in children into safe h
  refs_in_of_all_in (RuleNode.or children) into safe h = all_refs_in_of_all_in children into safe h
  refs_in_of_all_in (RuleNode.not children) into safe h = all_refs_in_of_all_in children into safe h
  refs_in_of_all_in (segment key negate) into safe h = all_in-add into safe key h

  all_refs_in_of_all_in :
      (trees : RuleNodes) (into safe : JsSet)
      → all_in (referenced_by_all trees into) safe ≡ true
      → (all_refs_in trees safe ≡ true) × (all_in into safe ≡ true)
  all_refs_in_of_all_in nil into safe h = (refl, h)
  all_refs_in_of_all_in (cons c cs) into safe h =
      let (later, before) = all_refs_in_of_all_in cs (referenced_segments c into) safe h in
      let (here, old) = refs_in_of_all_in c into safe before in (ground (arith, here, later), old)

module _ (host : Host) (context : EvaluationContext) (safe : JsSet)
    (value value' : JsString → Bool → Bool)
    (agree : (k : JsString) (n : Bool) → has safe k ≡ true → value k n ≡ value' k n) where
  mutual
    unfolding refs_in holds

    holds-agree :
        (tree : RuleNode)
        → refs_in tree safe ≡ true
        → holds host context value tree ≡ holds host context value' tree
    holds-agree (condition a o vs v) h = refl
    holds-agree (RuleNode.and children) h = all_hold-agree children h
    holds-agree (RuleNode.or children) h = some_hold-agree children h
    holds-agree (RuleNode.not children) h = ap not (all_hold-agree children h)
    holds-agree (segment k n) h = agree k n h

    all_hold-agree :
        (trees : RuleNodes)
        → all_refs_in trees safe ≡ true
        → all_hold host context value trees ≡ all_hold host context value' trees
    all_hold-agree nil h = refl
    all_hold-agree (cons c cs) h =
        let (here, later) = and-true {a = refs_in c safe} h in
        rw (holds-agree c here, all_hold-agree cs later) refl

    some_hold-agree :
        (trees : RuleNodes)
        → all_refs_in trees safe ≡ true
        → some_hold host context value trees ≡ some_hold host context value' trees
    some_hold-agree nil h = refl
    some_hold-agree (cons c cs) h =
        let (here, later) = and-true {a = refs_in c safe} h in
        rw (holds-agree c here, some_hold-agree cs later) refl

-- A lookup in an index of segments finds a segment of the list under its own key.
index_segments-get :
    (ss : List Segment) (m : JsMap Segment) (k : JsString) (s : Segment)
    → get (index_segments m ss) k ≡ some s
    → (In s ss × (s.key ≡ k)) ⊎ (get m k ≡ some s)
unfolding index_segments
index_segments-get [] m k s h = inr h
index_segments-get (x ∷ xs) m k s h = elim (index_segments-get xs (set m x.key x) k s h) [
  | inl (later, named) ↦ inl (inr later, named)
  | inr found ↦ elim (Bool-cases (str_eq x.key k)) [
    | inl same ↦
        let last : x ≡ s = ground (arith, get-set m x.key k x) in
        inl (inl (sym last), cc (ap (λ (u : Segment). u.key) last, (str_eq_iff x.key k).0 same))
    | inr other ↦ inr (ground (arith, get-set m x.key k x))
  ]
]

other_key :
    (safe : JsSet) (j k : JsString) → has safe j ≡ false → has safe k ≡ true → str_eq j k ≡ false
other_key safe j k h m = elim (Bool-cases (str_eq j k)) [
  | inl same ↦
      let e = (str_eq_iff j k).0 same in
      let both : has safe k ≡ false = subst (λ i. has safe i ≡ false) e h in absurd (cc (both, m))
  | inr other ↦ other
]

refs_in_of_safe :
    (tree : RuleNode) (safe : JsSet) → tree_is_safe tree safe ≡ true → refs_in tree safe ≡ true
unfolding tree_is_safe
refs_in_of_safe tree safe h =
    (refs_in_of_all_in tree [] safe (and-true {a = not (contains_server_only tree)} h).1).0

indexed_safe :
    (ss : List Segment) (safe : JsSet)
    → HasDistinctKeys ss
    → IsLeastSafe ss safe
    → (k : JsString) (s : Segment) → has safe k ≡ true
    → get (index_segments [] ss) k ≡ some s
    → tree_is_safe s.when safe ≡ true
unfolding get
indexed_safe ss safe d least k s m e = elim (index_segments-get ss [] k s e) [
  | inl (listed, named) ↦ safe_tree_of_key ss safe d least s listed (rw named m)
  | inr absent ↦ cc
]

-- For a safe key the index of the kept segments and that of all agree.
index_segments-filter :
    (safe : JsSet) (ss : List Segment) (m m' : JsMap Segment) (k : JsString)
    → has safe k ≡ true
    → get m k ≡ get m' k
    → get (index_segments m (filter (λ s. has safe s.key) ss)) k ≡ get (index_segments m' ss) k
unfolding index_segments filter
index_segments-filter safe [] m m' k h e = e
index_segments-filter safe (x ∷ xs) m m' k h e = elim (Bool-cases (has safe x.key)) [
  | inl kept ↦
      let same : get (set m x.key x) k ≡ get (set m' x.key x) k =
        ground (arith, get-set m x.key k x, get-set m' x.key k x, e) in
      rw kept (index_segments-filter safe xs (set m x.key x) (set m' x.key x) k h same)
  | inr dropped ↦
      let same : get m k ≡ get (set m' x.key x) k =
        ground (arith, get-set m' x.key k x, e, other_key safe x.key k dropped h) in
      rw dropped (index_segments-filter safe xs m (set m' x.key x) k h same)
]

module _ (host : Host) (context : EvaluationContext) (env env' : EvaluationEnvironment)
    (safe : JsSet)
    (agree : (k : JsString) → has safe k ≡ true → get env'.segments k ≡ get env.segments k)
    (safe_tree : (k : JsString) (s : Segment)
      → has safe k ≡ true
      → get env.segments k ≡ some s
      → tree_is_safe s.when safe ≡ true) where
  -- Below any guard set, and for any two depths that are enough, a safe segment stands for the
  -- same in both environments.
  segment_value-agree :
      (d d' : ℕ) (seen : JsSet) (k : JsString) (n : Bool)
      → remaining env.segments seen < d
      → remaining env'.segments seen < d'
      → has safe k ≡ true
      → segment_value host context env' d' seen k n ≡ segment_value host context env d seen k n
  unfolding segment_value
  segment_value-agree zero d' seen k n h h' m = absurd (omega arith)
  segment_value-agree (suc d) zero seen k n h h' m = absurd (omega arith)
  segment_value-agree (suc d) (suc d') seen k n h h' m = elim (Bool-cases (has seen k)) [
    | inl cycle ↦ ground (arith, cycle)
    | inr new ↦ elim (Option-cases (get env.segments k)) [
      | inl unknown ↦ ground (arith, new, unknown, agree k m)
      | inr (s, found) ↦
          let found' : get env'.segments k ≡ some s = agree k m ∙ found in
          let fewer = remaining-add_lt env.segments seen k s found new in
          let fewer' = remaining-add_lt env'.segments seen k s found' new in
          let tree =
            holds-agree host context safe (segment_value host context env' d' (add seen k))
              (segment_value host context env d (add seen k))
              (λ j b q. segment_value-agree d d' (add seen k) j b (omega arith) (omega arith) q)
              s.when (refs_in_of_safe s.when safe (safe_tree k s m found)) in
          ground (arith, new, found, found', tree)
    ]
  ]

  rule_value-agree :
      (tree : RuleNode)
      → tree_is_safe tree safe ≡ true
      → rule_value host context env' tree ≡ rule_value host context env tree
  unfolding rule_value
  rule_value-agree tree h =
      holds-agree host context safe
        (segment_value host context env' (segment_fuel host context env') [])
        (segment_value host context env (segment_fuel host context env) [])
        (λ k n m.
          segment_value-agree (segment_fuel host context env) (segment_fuel host context env') [] k
            n (omega (arith, remaining-le-length env.segments []))
            (omega (arith, remaining-le-length env'.segments [])) m)
        tree (refs_in_of_safe tree safe h)

-- If no two segments share a key, a rule that stays in the client payload matches the same contexts
-- there as it does in the whole snapshot.
pub client_rule-same_meaning :
    (host : Host) (context : EvaluationContext) (snapshot : RulesetSnapshot) (safe : JsSet)
    (rule : TargetingRule)
    → HasDistinctKeys snapshot.segments
    → client_safe_segments snapshot.segments ≡ some safe
    → is_rule_client_safe safe rule ≡ true
    → (let whole = index_snapshot snapshot in
        let client = index_snapshot (client_payload snapshot safe) in
        match_node host context client (segment_fuel host context client) rule.when none
        ≡ match_node host context whole (segment_fuel host context whole) rule.when none)
unfolding is_rule_client_safe
client_rule-same_meaning host context snapshot safe rule d found h =
    let (safe', found', least') = client_safe_segments-IsLeastSafe snapshot.segments in
    let same : safe' ≡ safe = ground (arith, found, found') in
    let least = subst (IsLeastSafe snapshot.segments) same least' in
    let whole = index_snapshot snapshot in
    let client = index_snapshot (client_payload snapshot safe) in
    let value =
      rule_value-agree host context whole client safe
        (λ k m.
          unfold index_snapshot in index_segments-filter safe snapshot.segments [] [] k m refl)
        (λ k s m e. unfold index_snapshot in indexed_safe snapshot.segments safe d least k s m e)
        rule.when h in
    match_node-rule_value host context client rule.when
    ∙ (ap (λ b. some (b, none)) value ∙ sym (match_node-rule_value host context whole rule.when))
