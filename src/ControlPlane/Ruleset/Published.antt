-- ===== src/ControlPlane/Ruleset/Published.antt =====
-- What a ruleset that is published guarantees at evaluation.
use flagship_platform.Shared.{
  ℕ, ◌+◌, ◌==◌, ◌≡◌, refl, sym, ◌∙◌, ap, subst, Bool, true, false, not, Option, some, List, [], ◌∷◌,
  ◌++◌, map, arith, length, if◌then◌else◌, ◌⊎◌, inl, inr, In, All, Bool-cases, Option-cases,
}
use flagship_platform.Js.Text.{JsString, str_eq}
use flagship_platform.Js.Set.{JsSet, has, add, has-add}
use flagship_platform.Js.Map.{JsMap, get, set, get-set}
use flagship_platform.Js.Value.{JsValue}
use flagship_platform.Js.Host.{Host}
use flagship_platform.Core.Types.{
  Variation, Distribution, Serve, fixed, rollout, TargetingRule, Flag, RulesetSnapshot,
  EvaluationContext,
}
use flagship_platform.Core.Evaluate.{
  CompiledFlag, index_variations, compile_flag, index_flags, index_snapshot,
}
use flagship_platform.Core.Evaluate.Flags.{evaluate_flag}
use flagship_platform.Core.Evaluate.Outcome.{
  Declares, IsServable, IsValidated, is_error, evaluate_flag-never_error,
}
use flagship_platform.Core.Visibility.{
  KeyKind, filter_snapshot_for_key, find_server_only_leaks, Leak,
}
use flagship_platform.Core.Visibility.Fixpoint.{client_safe_segments-IsLeastSafe}
use flagship_platform.Core.Visibility.Leaks.{filter_snapshot-client, client_payload}
use flagship_platform.ControlPlane.Ruleset.{
  Problem, undeclared_default, undeclared_off, set_of, problem_if, undeclared_slices,
  validate_serve, validate_rules, variation_keys_of, validate_flag, validate_flags,
  validate_segments,
}
use flagship_platform.ControlPlane.Ruleset.Nodes.{Place, rule_path}
use flagship_platform.ControlPlane.Ruleset.Search.{find_prerequisite_cycle_ends}
use flagship_platform.ControlPlane.Ruleset.Compile.{
  CompiledRuleset, Compiled, refused, compiled, cycle_problems, all_problems, problems_of, checked,
  publish, compile_ruleset,
}

append-nil_parts : (xs ys : List Problem) → xs ++ ys ≡ [] → (xs ≡ []) × (ys ≡ [])
append-nil_parts [] ys h = (refl, h)
append-nil_parts (x ∷ xs) ys h = absurd (ground arith)

problem_if-nil : (test : Bool) (p : Problem) → problem_if test p ≡ [] → test ≡ false
unfolding problem_if
problem_if-nil test p h = ground arith

-- A variation whose key was collected is in the index.
index_variations-declares :
    (m : JsMap Variation) (keys : JsSet) (vs : List Variation) (k : JsString)
    → (has keys k ≡ true → (v : Variation) × (get m k ≡ some v))
    → has (set_of keys (map (λ v. v.key) vs)) k ≡ true
    → (v : Variation) × (get (index_variations m vs) k ≡ some v)
unfolding set_of index_variations
index_variations-declares m keys [] k held h = held h
index_variations-declares m keys (w ∷ ws) k held h =
    index_variations-declares (set m w.key w) (add keys w.key) ws k
      (λ e. elim (Bool-cases (str_eq w.key k)) [
        | inl same ↦ (w, rw (get-set m w.key k w, same) refl)
        | inr other ↦
            let (v, found) = held (ground (arith, has-add keys w.key k)) in
            (v, rw (get-set m w.key k w, other) found)
      ])
      h

keys-Declares :
    (flag : Flag) (k : JsString)
    → has (variation_keys_of flag) k ≡ true
    → Declares (compile_flag flag) k
unfolding variation_keys_of
keys-Declares flag k h =
    index_variations-declares [] [] flag.variations k (λ e. unfold has in absurd (ground arith)) h

slices-declared :
    (path : Place) (keys : JsSet) (d : List Distribution)
    → undeclared_slices path keys d ≡ []
    → All (λ e. has keys e.variation_key ≡ true) d
unfolding undeclared_slices
slices-declared path keys [] h = tt
slices-declared path keys (e ∷ es) h =
    let (here, rest) = append-nil_parts _ _ h in
    let declared = problem_if-nil _ _ here in (ground arith, slices-declared path keys es rest)

All-Declares :
    (flag : Flag) (d : List Distribution)
    → All (λ e. has (variation_keys_of flag) e.variation_key ≡ true) d
    → All (λ e. Declares (compile_flag flag) e.variation_key) d
All-Declares flag [] h = tt
All-Declares flag (e ∷ es) (p, h) = (keys-Declares flag e.variation_key p, All-Declares flag es h)

serve-IsServable :
    (flag : Flag) (path : Place) (serve : Serve)
    → validate_serve path (variation_keys_of flag) serve ≡ []
    → IsServable (compile_flag flag) serve
unfolding validate_serve
serve-IsServable flag path (fixed key) h =
    let declared = problem_if-nil _ _ h in keys-Declares flag key (ground arith)
serve-IsServable flag path (rollout d) h =
    let (weights, rest) = append-nil_parts _ _ h in
    let valid = problem_if-nil _ _ weights in
    (ground arith, All-Declares flag d (slices-declared path (variation_keys_of flag) d rest))

rules-IsServable :
    (flag : Flag) (segment_keys : JsSet) (index : ℕ) (rules : List TargetingRule)
    → validate_rules flag.key segment_keys (variation_keys_of flag) index rules ≡ []
    → All (λ r. IsServable (compile_flag flag) r.serve) rules
unfolding validate_rules
rules-IsServable flag segment_keys index [] h = tt
rules-IsServable flag segment_keys index (r ∷ rs) h =
    let (_, refs) = append-nil_parts _ _ h in
    let (_, tail) = append-nil_parts _ _ refs in
    let (served, rest) = append-nil_parts _ _ tail in
    (
      serve-IsServable flag (rule_path flag.key index) r.serve served,
      rules-IsServable flag segment_keys (index + 1) rs rest,
    )

validate_flag-IsValidated :
    (flag : Flag) (segment_keys : JsSet)
    → validate_flag flag segment_keys ≡ []
    → IsValidated (compile_flag flag)
unfolding validate_flag
validate_flag-IsValidated flag segment_keys h =
    elim (Bool-cases (length (variation_keys_of flag) == 0)) [
      | inl empty ↦ absurd (ground arith)
      | inr filled ↦
          let (_, rest) = append-nil_parts _ _ (rw filled at h) in
          let (default_test, rest') = append-nil_parts _ _ rest in
          let (off_test, rules) = append-nil_parts _ _ rest' in
          let has_default =
            problem_if-nil (not (has (variation_keys_of flag) flag.default_variation_key))
              (undeclared_default flag.key) default_test in
          let has_off =
            problem_if-nil (not (has (variation_keys_of flag) flag.off_variation_key))
              (undeclared_off flag.key) off_test in
          record {
            default_declared = keys-Declares flag flag.default_variation_key (ground arith);
            off_declared = keys-Declares flag flag.off_variation_key (ground arith);
            servable = rules-IsServable flag segment_keys 0 flag.rules rules;
          }
    ]

validate_flags-each :
    (segment_keys flag_keys : JsSet) (flags : List Flag) (flag : Flag)
    → validate_flags segment_keys flag_keys flags ≡ []
    → In flag flags
    → validate_flag flag segment_keys ≡ []
unfolding validate_flags
validate_flags-each segment_keys flag_keys [] flag h m = absurd m
validate_flags-each segment_keys flag_keys (f ∷ fs) flag h (inl e) =
    let (here, _) = append-nil_parts _ _ h in rw e here
validate_flags-each segment_keys flag_keys (f ∷ fs) flag h (inr m) =
    let (_, rest) = append-nil_parts _ _ h in
    let (_, later) = append-nil_parts _ _ rest in
    validate_flags-each segment_keys flag_keys fs flag later m

-- What the index holds under a key is one of the flags.
index_flags-In :
    (m : JsMap CompiledFlag) (flags : List Flag) (k : JsString) (c : CompiledFlag)
    → get (index_flags m flags) k ≡ some c
    → (get m k ≡ some c) ⊎ ((flag : Flag) × In flag flags × (c ≡ compile_flag flag))
unfolding index_flags
index_flags-In m [] k c h = inl h
index_flags-In m (f ∷ fs) k c h = elim (index_flags-In (set m f.key (compile_flag f)) fs k c h) [
  | inr (flag, m, e) ↦ inr (flag, inr m, e)
  | inl found ↦
      let put : (if str_eq f.key k then some (compile_flag f) else get m k) ≡ some c =
        sym (get-set m f.key k (compile_flag f)) ∙ found in
      elim (Bool-cases (str_eq f.key k)) [
        | inl same ↦ inr (f, inl refl, ground (arith, put, same))
        | inr other ↦ inl (rw other at put)
      ]
]

checked-compiled :
    (server client : RulesetSnapshot) (leaks : List Leak) (c : CompiledRuleset)
    → checked server client leaks ≡ compiled c
    → (leaks ≡ []) × (c.server ≡ server) × (c.client ≡ client)
unfolding checked
checked-compiled server client [] c h = (refl, ground (arith, h), ground (arith, h))
checked-compiled server client (leak ∷ leaks) c h = absurd (ground arith)

publish-compiled :
    (server : RulesetSnapshot) (problems : List Problem) (c : CompiledRuleset)
    → publish server problems ≡ some (compiled c)
    → (problems ≡ [])
      × (filter_snapshot_for_key server KeyKind.client ≡ some c.client)
      × (find_server_only_leaks c.client ≡ [])
      × (c.server ≡ server)
unfolding publish
publish-compiled server (p ∷ ps) c h = absurd (ground arith)
publish-compiled server [] c h =
    elim (Option-cases (filter_snapshot_for_key server KeyKind.client)) [
      | inl missing ↦ absurd (ground (arith, missing, h))
      | inr (client, found) ↦
          let done : checked server client (find_server_only_leaks client) ≡ compiled c =
            ground (arith, found, h) in
          let (none_leak, same, sent) = checked-compiled server client _ c done in
          (refl, found ∙ ap some (sym sent), ap find_server_only_leaks sent ∙ none_leak, same)
    ]

compile_ruleset-publish :
    (server : RulesetSnapshot)
    → (found : Option (List JsString)) × (compile_ruleset server
        ≡ publish server (all_problems server.flags server.segments found))
unfolding compile_ruleset problems_of
compile_ruleset-publish server =
    let (found, ends) = find_prerequisite_cycle_ends server.flags in
    (found, rw (ends, compile_ruleset, problems_of) refl)

publish_ends :
    (server : RulesetSnapshot) (problems : List Problem)
    → (result : Compiled) × (publish server problems ≡ some result)
unfolding publish
publish_ends server (p ∷ ps) = (refused (p ∷ ps), refl)
publish_ends server [] =
    let (safe, found, _) = client_safe_segments-IsLeastSafe server.segments in
    let client = client_payload server safe in
    (
      checked server client (find_server_only_leaks client),
      rw (filter_snapshot-client server safe found, publish) refl,
    )

published_flag-IsValidated :
    (server : RulesetSnapshot) (found : Option (List JsString)) (key : JsString)
    (flag : CompiledFlag)
    → all_problems server.flags server.segments found ≡ []
    → get (index_snapshot server).flags key ≡ some flag
    → IsValidated flag
unfolding all_problems index_snapshot
published_flag-IsValidated server found key flag none_found listed =
    let segment_keys = set_of [] (map (λ s. s.key) server.segments) in
    let flag_keys = set_of [] (map (λ f. f.key) server.flags) in
    let (_, rest) = append-nil_parts (validate_segments server.segments) _ none_found in
    let (flags, _) =
      append-nil_parts (validate_flags segment_keys flag_keys server.flags) (cycle_problems found)
        rest in
    elim (index_flags-In [] server.flags key flag listed) [
      | inl nothing ↦ absurd (unfold get in ground arith)
      | inr (f, m, same) ↦ subst IsValidated (sym same) (
          validate_flag-IsValidated f segment_keys
            (validate_flags-each segment_keys flag_keys server.flags f flags m))
    ]

-- Compiling a ruleset always ends, with two payloads or with problems.
pub compile_ruleset_ends :
    (server : RulesetSnapshot) → (result : Compiled) × (compile_ruleset server ≡ some result)
compile_ruleset_ends server =
    let (found, same) = compile_ruleset-publish server in
    let (result, ends) = publish_ends server (all_problems server.flags server.segments found) in
    (result, same ∙ ends)

-- What is published: the rows as the server payload, and for client keys the filtered payload, in
-- which the search for leaks finds nothing.
pub compile_ruleset-payloads :
    (server : RulesetSnapshot) (c : CompiledRuleset)
    → compile_ruleset server ≡ some (compiled c)
    → (c.server ≡ server)
      × (filter_snapshot_for_key server KeyKind.client ≡ some c.client)
      × (find_server_only_leaks c.client ≡ [])
compile_ruleset-payloads server c h =
    let (found, same) = compile_ruleset-publish server in
    let (_, client, clean, kept) =
      publish-compiled server (all_problems server.flags server.segments found) c (sym same ∙ h) in
    (kept, client, clean)

-- A flag of a published ruleset never evaluates to an error, for any context.
pub published_flag-never_error :
    (server : RulesetSnapshot) (c : CompiledRuleset) (host : Host) (context : EvaluationContext)
    (key : JsString) (fallback : JsValue) (flag : CompiledFlag)
    → compile_ruleset server ≡ some (compiled c)
    → get (index_snapshot c.server).flags key ≡ some flag
    → is_error (evaluate_flag host context (index_snapshot c.server) key fallback).reason ≡ false
published_flag-never_error server c host context key fallback flag h listed =
    let (found, same) = compile_ruleset-publish server in
    let (none_found, _, _, kept) =
      publish-compiled server (all_problems server.flags server.segments found) c (sym same ∙ h) in
    let there : get (index_snapshot server).flags key ≡ some flag =
      subst (λ s. get (index_snapshot s).flags key ≡ some flag) kept listed in
    evaluate_flag-never_error host context (index_snapshot c.server) key fallback flag listed
      (published_flag-IsValidated server found key flag none_found there)
