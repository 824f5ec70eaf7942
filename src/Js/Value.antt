-- ===== src/Js/Value.antt =====
-- A value of type `unknown`. An array's elements and an object's own fields have list types of
-- their own.
use flagship_platform.Shared.{Bool}
use flagship_platform.Js.Text.{JsString}
use flagship_platform.Js.Number.{Number}

mutual
  pub data JsValue : Type 0 where
    undefined null : JsValue
    boolean : Bool → JsValue
    number : Number → JsValue
    string : JsString → JsValue
    array : Items → JsValue
    object : Fields → JsValue

  pub data Items : Type 0 where
    nil : Items
    cons : JsValue → Items → Items

  pub data Fields : Type 0 where
    end : Fields
    field : JsString → JsValue → Fields → Fields
