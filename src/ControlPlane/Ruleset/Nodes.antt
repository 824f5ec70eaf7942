-- ===== src/ControlPlane/Ruleset/Nodes.antt =====
-- apps/control-plane/src/ruleset.ts: `validateRuleNode`, over any value.
use flagship_platform.Shared.{
  ℕ, zero, suc, ◌+◌, Bool, true, false, ◌||◌, List, [], ◌∷◌, ◌++◌, if◌then◌else◌,
}
use flagship_platform.Js.Text.{JsString, js, str_eq}
use flagship_platform.Js.Value.{JsValue, Items, Fields, nil, cons, end, field}
use flagship_platform.Core.Types.{AttributeValue, Operator, Visibility, RuleNode, RuleNodes}

-- Where a node stands: the text of the source, by what it is made of.
pub data Place : Type 0 where
  rule_path : (flag_key : JsString) → (index : ℕ) → Place
  segment_path : (segment_key : JsString) → Place
  child : Place → (index : ℕ) → Place

pub data NodeProblem : Type 0 where
  too_deep not_an_object no_attribute no_operator no_values no_visibility : Place → NodeProblem
  no_children no_segment_key no_negate unknown_kind : Place → NodeProblem

-- candidate[name], for an object with its own properties
unfoldable pub property : Fields → JsString → JsValue
property end name = JsValue.undefined
property (field key value fields) name =
    let rest = property fields name in if str_eq key name then value else rest

abbrev is_string : JsValue → Bool
is_string (JsValue.string s) = true
is_string _ = false

abbrev is_filled_string : JsValue → Bool
is_filled_string (JsValue.string []) = false
is_filled_string (JsValue.string (c ∷ s)) = true
is_filled_string _ = false

abbrev is_boolean : JsValue → Bool
is_boolean (JsValue.boolean b) = true
is_boolean _ = false

abbrev is_filled_array : JsValue → Bool
is_filled_array (JsValue.array (cons v vs)) = true
is_filled_array _ = false

-- value === text
abbrev is_text : JsValue → JsString → Bool
is_text (JsValue.string s) text = str_eq s text
is_text _ text = false

abbrev problem_unless : Bool → NodeProblem → List NodeProblem
problem_unless true problem = []
problem_unless false problem = problem ∷ []

-- The case of a condition.
unfoldable pub validate_condition : Fields → Place → List NodeProblem
validate_condition node path =
    problem_unless (is_filled_string (property node (js "attribute"))) (no_attribute path)
    ++ (problem_unless (is_string (property node (js "operator"))) (no_operator path)
        ++ (problem_unless (is_filled_array (property node (js "values"))) (no_values path)
            ++ problem_unless
                (is_text (property node (js "visibility")) (js "client")
                  || is_text (property node (js "visibility")) (js "server"))
                (no_visibility path)))

-- The case of a segment reference.
unfoldable pub validate_segment_ref : Fields → Place → List NodeProblem
validate_segment_ref node path =
    problem_unless (is_filled_string (property node (js "segmentKey"))) (no_segment_key path)
    ++ problem_unless (is_boolean (property node (js "negate"))) (no_negate path)

-- children.forEach(…)
unfoldable pub validate_children :
    (visit : JsValue → Place → List NodeProblem) → Place → (index : ℕ) → Items → List NodeProblem
validate_children visit path index nil = []
validate_children visit path index (cons c cs) =
    visit c (child path index) ++ validate_children visit path (index + 1) cs

-- The case of a Boolean node.
unfoldable pub validate_boolean :
    (visit : JsValue → Place → List NodeProblem) → JsValue → Place → List NodeProblem
validate_boolean visit (JsValue.array children) path = validate_children visit path 0 children
validate_boolean visit _ path = no_children path ∷ []

-- The `switch`.
unfoldable pub validate_fields :
    (visit : JsValue → Place → List NodeProblem) → Fields → Place → List NodeProblem
validate_fields visit node path =
    let kind = property node (js "kind") in
    if is_text kind (js "condition")
    then validate_condition node path
    else if is_text kind (js "and") || is_text kind (js "or") || is_text kind (js "not")
    then validate_boolean visit (property node (js "children")) path
    else if is_text kind (js "segment")
    then validate_segment_ref node path
    else unknown_kind path ∷ []

-- `validateRuleNode` at depth 33 - `room`: the recursion ends at depth 33, with a problem.
unfoldable pub validate_node : (room : ℕ) → JsValue → Place → List NodeProblem
validate_node zero value path = too_deep path ∷ []
validate_node (suc room) (JsValue.object fields) path =
    validate_fields (validate_node room) fields path
validate_node (suc room) (JsValue.array items) path = unknown_kind path ∷ []
validate_node (suc room) _ path = not_an_object path ∷ []

abbrev pub max_room : ℕ
max_room = 33

unfoldable pub validate_rule_node : JsValue → Place → List NodeProblem
validate_rule_node value path = validate_node max_room value path

operator_name : Operator → JsString
operator_name Operator.eq = js "eq"
operator_name Operator.neq = js "neq"
operator_name Operator.in_list = js "in"
operator_name Operator.not_in = js "notIn"
operator_name Operator.contains = js "contains"
operator_name Operator.starts_with = js "startsWith"
operator_name Operator.ends_with = js "endsWith"
operator_name Operator.matches = js "matches"
operator_name Operator.gt = js "gt"
operator_name Operator.gte = js "gte"
operator_name Operator.lt = js "lt"
operator_name Operator.lte = js "lte"
operator_name Operator.semver_gt = js "semverGt"
operator_name Operator.semver_lt = js "semverLt"

value_of : AttributeValue → JsValue
value_of (AttributeValue.string s) = JsValue.string s
value_of (AttributeValue.number n) = JsValue.number n
value_of (AttributeValue.boolean b) = JsValue.boolean b
value_of AttributeValue.null = JsValue.null

items_of : List AttributeValue → Items
unfolding value_of
items_of [] = nil
items_of (v ∷ vs) = cons (value_of v) (items_of vs)

visibility_name : Visibility → JsString
visibility_name Visibility.client = js "client"
visibility_name Visibility.server = js "server"

boolean_node : JsString → Items → JsValue
boolean_node kind children =
    JsValue.object
      (field (js "kind") (JsValue.string kind) (field (js "children") (JsValue.array children) end))

-- The object that a node of the declared type is.
unfoldable mutual
  unfolding operator_name items_of visibility_name boolean_node

  pub object_of : RuleNode → JsValue
  object_of (RuleNode.condition attribute operator values visibility) = JsValue.object (
      field (js "kind") (JsValue.string (js "condition")) (
        field (js "attribute") (JsValue.string attribute) (
          field (js "operator") (JsValue.string (operator_name operator)) (
            field (js "values") (JsValue.array (items_of values))
              (field (js "visibility") (JsValue.string (visibility_name visibility)) end)))))
  object_of (RuleNode.and children) = boolean_node (js "and") (objects_of children)
  object_of (RuleNode.or children) = boolean_node (js "or") (objects_of children)
  object_of (RuleNode.not children) = boolean_node (js "not") (objects_of children)
  object_of (RuleNode.segment key negate) = JsValue.object (
      field (js "kind") (JsValue.string (js "segment")) (
        field (js "segmentKey") (JsValue.string key)
          (field (js "negate") (JsValue.boolean negate) end)))

  pub objects_of : RuleNodes → Items
  objects_of RuleNodes.nil = nil
  objects_of (RuleNodes.cons node nodes) = cons (object_of node) (objects_of nodes)
