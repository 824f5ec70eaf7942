-- ===== src/Js/Host.antt =====
-- What the source takes from the JavaScript engine and that no file of it defines.
use flagship_platform.Shared.{Bool, Option}
use flagship_platform.Js.Text.{JsString}
use flagship_platform.Js.Number.{Number}

-- `RegExp.prototype.test` of a compiled pattern.
abbrev pub Regex : Type 0
Regex = JsString → Bool

pub record Host : Type 0 where
  -- String(n)
  pub number_to_string : Number → JsString
  -- new RegExp(pattern), `none` where the constructor throws
  pub new_regex : JsString → Option Regex
