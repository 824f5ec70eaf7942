-- ===== src/Core/Visibility/Examples.antt =====
-- The payload theorems at the sample ruleset.
use flagship_platform.Shared.{◌≡◌, ◌≢◌, refl, true, some, none, ◌∷◌, []}
use flagship_platform.Shared.Int.{pos}
use flagship_platform.Js.Text.{js, str_eq}
use flagship_platform.Js.Set.{JsSet, has, add}
use flagship_platform.Core.Types.{RulesetSnapshot}
use flagship_platform.Core.Samples.{sample_host, visitor, snapshot_of, beta_rule, beta, staff}
use flagship_platform.Core.Evaluate.{index_snapshot, match_node, segment_fuel}
use flagship_platform.Core.Visibility.{
  KeyKind, contains_server_only, some_contain_server_only, referenced_segments, referenced_by_all,
  all_in, tree_is_safe, safe_round, safe_loop, client_safe_segments, is_rule_client_safe,
  filter_snapshot_for_key, find_server_only_leaks,
}
use flagship_platform.Core.Visibility.Fixpoint.{IsLeastSafe, client_safe_segments-IsLeastSafe}
use flagship_platform.Core.Visibility.Leaks.{
  HasDistinctKeys, client_payload, client_payload-no_leaks,
}
use flagship_platform.Core.Visibility.Meaning.{client_rule-same_meaning}

staff_is_not_beta : js "staff" ≢ js "beta"
staff_is_not_beta e = cc

sample-HasDistinctKeys : HasDistinctKeys (beta ∷ staff ∷ [])
sample-HasDistinctKeys = ((staff_is_not_beta, tt), (tt, tt))

sample_safe : client_safe_segments (beta ∷ staff ∷ []) ≡ some (js "beta" ∷ [])
unfolding client_safe_segments safe_loop safe_round tree_is_safe contains_server_only
    some_contain_server_only referenced_segments referenced_by_all all_in has add str_eq
sample_safe = refl

beta_rule_safe : is_rule_client_safe (js "beta" ∷ []) beta_rule ≡ true
unfolding is_rule_client_safe tree_is_safe contains_server_only some_contain_server_only
    referenced_segments referenced_by_all all_in has add str_eq
beta_rule_safe = refl

client_safe_example :
    (safe : JsSet) × (client_safe_segments (beta ∷ staff ∷ []) ≡ some safe)
    × IsLeastSafe (beta ∷ staff ∷ []) safe
client_safe_example = client_safe_segments-IsLeastSafe (beta ∷ staff ∷ [])

no_leaks_example :
    (payload : RulesetSnapshot) × (filter_snapshot_for_key (snapshot_of (pos 3)) KeyKind.client
      ≡ some payload)
    × (find_server_only_leaks payload ≡ [])
no_leaks_example = client_payload-no_leaks (snapshot_of (pos 3)) sample-HasDistinctKeys

same_meaning_example :
    (let whole = index_snapshot (snapshot_of (pos 3)) in
      let client = index_snapshot (client_payload (snapshot_of (pos 3)) (js "beta" ∷ [])) in
      match_node sample_host visitor client
        (segment_fuel sample_host visitor client)
        beta_rule.when
        none
      ≡ match_node sample_host visitor whole
          (segment_fuel sample_host visitor whole)
          beta_rule.when
          none)
same_meaning_example =
    client_rule-same_meaning sample_host visitor (snapshot_of (pos 3)) (js "beta" ∷ []) beta_rule
      sample-HasDistinctKeys sample_safe beta_rule_safe
