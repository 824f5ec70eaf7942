-- ===== src/ControlPlane/Keys/Examples.antt =====
-- A text that no label begins.
use flagship_platform.Shared.{◌≡◌, refl, none}
use flagship_platform.Js.Text.{js, starts_with}
use flagship_platform.ControlPlane.Keys.{key_kind_of}

unlabelled : key_kind_of (js "sk_live_1") ≡ none
unfolding key_kind_of starts_with
unlabelled = refl
