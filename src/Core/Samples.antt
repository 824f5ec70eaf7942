-- ===== src/Core/Samples.antt =====
-- A small ruleset, for the tests and the concrete instances of the theorems.
use flagship_platform.Shared.{true, false, some, List, [], ◌∷◌}
use flagship_platform.Shared.Int.{ℤ}
use flagship_platform.Js.Text.{js, includes}
use flagship_platform.Js.Value.{JsValue}
use flagship_platform.Js.Number.{of_nat}
use flagship_platform.Js.Host.{Host}
use flagship_platform.Core.Types.{
  string, Operator, Visibility, RuleNode, nil, cons, condition, segment, Distribution, fixed,
  rollout, TargetingRule, Flag, Segment, RulesetSnapshot, EvaluationContext,
}

-- A host that prints every number alike and takes each pattern as the text to look for.
abbrev pub sample_host : Host
sample_host = record {
  number_to_string = λ _. js "0";
  new_regex = λ pattern. some (λ s. includes s pattern);
}

abbrev pub half : List Distribution
half =
    record { variation_key = js "on"; weight = of_nat 40000 }
    ∷ record { variation_key = js "off"; weight = of_nat 60000 }
    ∷ []

abbrev pub email_ends : Visibility → RuleNode
email_ends visibility =
    condition (js "email") Operator.ends_with (string (js ".org") ∷ []) visibility

abbrev pub beta : Segment
beta = record { key = js "beta"; when = RuleNode.or (cons (email_ends Visibility.client) nil) }

abbrev pub staff : Segment
staff = record { key = js "staff"; when = email_ends Visibility.server }

abbrev pub beta_rule : TargetingRule
beta_rule = record {
  id = js "r1";
  description = js "";
  when = RuleNode.not (cons (segment (js "beta") false) nil);
  serve = rollout half;
}

abbrev pub staff_rule : TargetingRule
staff_rule = record {
  id = js "r2";
  description = js "";
  when = segment (js "staff") false;
  serve = fixed (js "on");
}

abbrev pub checkout : Flag
checkout = record {
  key = js "checkout";
  enabled = true;
  salt = js "s1";
  variations =
      record { key = js "on"; value = JsValue.boolean true }
      ∷ record { key = js "off"; value = JsValue.boolean false }
      ∷ [];
  default_variation_key = js "off";
  off_variation_key = js "off";
  prerequisites = [];
  rules = staff_rule ∷ beta_rule ∷ [];
  bucket_by = js "key";
}

abbrev pub snapshot_of : ℤ → RulesetSnapshot
snapshot_of version = record {
  environment_key = js "prod";
  version = version;
  flags = checkout ∷ [];
  segments = beta ∷ staff ∷ [];
  served_at = js "";
}

abbrev pub visitor : EvaluationContext
visitor = record { key = js "u1"; attributes = (js "email", string (js "a@b.org")) ∷ [] }
