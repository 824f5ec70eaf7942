-- ===== src/Core/Visibility.antt =====
-- packages/core/src/visibility.ts: payload filtering by key kind. The `default` cases of the source,
-- for a node kind that its types rule out, have no counterpart.
mod Examples
pub mod Fixpoint
pub mod Leaks
pub mod Meaning
use flagship_platform.Shared.{
  ℕ, zero, suc, Bool, true, false, not, ◌&&◌, ◌||◌, Option, none, some, List, [], ◌∷◌, ◌++◌, map,
  if◌then◌else◌, length, any, filter,
}
use flagship_platform.Js.Text.{JsString}
use flagship_platform.Js.Set.{JsSet, has, add}
use flagship_platform.Core.Types.{
  RuleNode, RuleNodes, nil, cons, condition, segment, Visibility, TargetingRule, Flag, Segment,
  RulesetSnapshot,
}

-- `KeyKind` has the same two cases as `Visibility`.
pub data KeyKind : Type 0 where
  client server : KeyKind

abbrev is_server : Visibility → Bool
is_server Visibility.server = true
is_server Visibility.client = false

unfoldable mutual
  pub contains_server_only : RuleNode → Bool
  contains_server_only (condition attribute operator values visibility) = is_server visibility
  contains_server_only (RuleNode.and children) = some_contain_server_only children
  contains_server_only (RuleNode.or children) = some_contain_server_only children
  contains_server_only (RuleNode.not children) = some_contain_server_only children
  contains_server_only (segment key negate) = false

  -- children.some(containsServerOnly)
  pub some_contain_server_only : RuleNodes → Bool
  some_contain_server_only nil = false
  some_contain_server_only (cons child children) =
      contains_server_only child || some_contain_server_only children

unfoldable mutual
  pub referenced_segments : RuleNode → JsSet → JsSet
  referenced_segments (condition attribute operator values visibility) into = into
  referenced_segments (RuleNode.and children) into = referenced_by_all children into
  referenced_segments (RuleNode.or children) into = referenced_by_all children into
  referenced_segments (RuleNode.not children) into = referenced_by_all children into
  referenced_segments (segment key negate) into = add into key

  pub referenced_by_all : RuleNodes → JsSet → JsSet
  referenced_by_all nil into = into
  referenced_by_all (cons child children) into =
      referenced_by_all children (referenced_segments child into)

-- The loops that stop at the first key that the set does not hold.
unfoldable pub all_in : JsSet → JsSet → Bool
all_in [] safe = true
all_in (key ∷ keys) safe = has safe key && all_in keys safe

-- What the inner loop of `clientSafeSegments` asks of a segment's tree.
unfoldable pub tree_is_safe : RuleNode → JsSet → Bool
tree_is_safe tree safe =
    not (contains_server_only tree) && all_in (referenced_segments tree []) safe

-- One round of the `while` loop: the set, and `changed`.
unfoldable pub safe_round : List Segment → JsSet → Bool → JsSet × Bool
safe_round [] safe changed = (safe, changed)
safe_round (s ∷ ss) safe changed =
    let grows = not (has safe s.key) && tree_is_safe s.when safe in
    safe_round ss (if grows then add safe s.key else safe) (grows || changed)

-- The `while` loop. It takes fuel, and `none` is a loop that ran out of it.
unfoldable pub safe_loop : (fuel : ℕ) → List Segment → JsSet → Option JsSet
safe_loop zero segments safe = none
safe_loop (suc fuel) segments safe =
    let (safe', changed) = safe_round segments safe false in
    let again = safe_loop fuel segments safe' in if changed then again else some safe'

-- Each round but the last makes a segment's key safe.
unfoldable pub client_safe_segments : List Segment → Option JsSet
client_safe_segments segments = safe_loop (suc (length segments)) segments []

unfoldable pub is_rule_client_safe : JsSet → TargetingRule → Bool
is_rule_client_safe safe rule = tree_is_safe rule.when safe

unfoldable pub filter_flag : JsSet → Flag → Flag
filter_flag safe flag = record flag { rules = filter (is_rule_client_safe safe) flag.rules }

-- `none` is a `while` loop of `clientSafeSegments` that ran out of fuel.
unfoldable pub filter_snapshot_for_key : RulesetSnapshot → KeyKind → Option RulesetSnapshot
filter_snapshot_for_key snapshot KeyKind.server = some snapshot
filter_snapshot_for_key snapshot KeyKind.client = elim (client_safe_segments snapshot.segments) [
  | none ↦ none
  | some safe ↦ some (record snapshot {
    flags = map (filter_flag safe) snapshot.flags;
    segments = filter (λ s. has safe s.key) snapshot.segments;
  })
]

-- The strings of `findServerOnlyLeaks`, by what their templates are filled with.
pub data Leak : Type 0 where
  leaked_segment : (segment_key : JsString) → Leak
  leaked_rule : (flag_key rule_id : JsString) → Leak
  missing_segment : (flag_key rule_id segment_key : JsString) → Leak

unfoldable pub segment_leaks : List Segment → List Leak
segment_leaks [] = []
segment_leaks (s ∷ ss) =
    let rest = segment_leaks ss in
    if contains_server_only s.when then leaked_segment s.key ∷ rest else rest

unfoldable pub missing_leaks : (flag_key rule_id : JsString) → JsSet → JsSet → List Leak
missing_leaks flag_key rule_id segment_keys [] = []
missing_leaks flag_key rule_id segment_keys (key ∷ keys) =
    let rest = missing_leaks flag_key rule_id segment_keys keys in
    if has segment_keys key then rest else missing_segment flag_key rule_id key ∷ rest

unfoldable pub rule_leaks : (flag_key : JsString) → JsSet → List TargetingRule → List Leak
rule_leaks flag_key segment_keys [] = []
rule_leaks flag_key segment_keys (rule ∷ rules) =
    (if contains_server_only rule.when then leaked_rule flag_key rule.id ∷ [] else [])
    ++ (missing_leaks flag_key rule.id segment_keys (referenced_segments rule.when [])
        ++ rule_leaks flag_key segment_keys rules)

unfoldable pub flag_leaks : JsSet → List Flag → List Leak
flag_leaks segment_keys [] = []
flag_leaks segment_keys (flag ∷ flags) =
    rule_leaks flag.key segment_keys flag.rules ++ flag_leaks segment_keys flags

-- new Set(snapshot.segments.map((segment) => segment.key))
unfoldable pub keys_of : List Segment → JsSet → JsSet
keys_of [] into = into
keys_of (s ∷ ss) into = keys_of ss (add into s.key)

unfoldable pub find_server_only_leaks : RulesetSnapshot → List Leak
find_server_only_leaks snapshot =
    segment_leaks snapshot.segments ++ flag_leaks (keys_of snapshot.segments []) snapshot.flags
