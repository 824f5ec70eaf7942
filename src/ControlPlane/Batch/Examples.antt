-- ===== src/ControlPlane/Batch/Examples.antt =====
-- A batch with one good event and one bad one.
use flagship_platform.Shared.{List, [], ◌∷◌}
use flagship_platform.Js.Text.{js}
use flagship_platform.Js.Number.{of_nat}
use flagship_platform.Js.Value.{JsValue, field, end}
use flagship_platform.Core.Visibility.{KeyKind}
use flagship_platform.ControlPlane.Batch.{AuthenticatedKey}

abbrev scope : AuthenticatedKey
scope = record {
  tenant_id = js "t1";
  environment_id = js "e1";
  environment_key = js "prod";
  kind = KeyKind.client;
  api_key_id = js "k1";
}

abbrev events : List JsValue
events =
    JsValue.null
    ∷ JsValue.object (
        field (js "flagKey") (JsValue.string (js "checkout")) (
          field (js "variationKey") (JsValue.string (js "on")) (
            field (js "contextKey") (JsValue.string (js "u1")) (
              field (js "dedupeKey") (JsValue.string (js "u1:checkout:3:1")) (
                field (js "rulesetVersion") (JsValue.number (of_nat 3))
                  (field (js "timestamp") (JsValue.string (js "1970-01-01T00:00:00.000Z")) end))))))
    ∷ []
