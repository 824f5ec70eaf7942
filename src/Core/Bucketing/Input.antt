-- ===== src/Core/Bucketing/Input.antt =====
-- The bucketing input as a code for its three parts.
use flagship_platform.Shared.{◌≡◌, ◌≢◌, [], ◌∷◌, ◌++◌, arith, All, refl}
use flagship_platform.Js.Text.{JsString}
use flagship_platform.Core.Bucketing.{bucketing_input}

-- The code unit of ":" does not occur.
abbrev pub IsColonFree : JsString → Type 0
IsColonFree s = All (λ c. c ≢ b':') s

append_colon-injective :
    (a b x y : JsString)
    → IsColonFree a
    → IsColonFree b
    → a ++ b':' ∷ x ≡ b ++ b':' ∷ y
    → (a ≡ b) × (x ≡ y)
append_colon-injective [] [] x y h k e = (refl, cc)
append_colon-injective [] (d ∷ b) x y h k e = absurd (k.0 (ground arith))
append_colon-injective (c ∷ a) [] x y h k e = absurd (h.0 (ground arith))
append_colon-injective (c ∷ a) (d ∷ b) x y h k e =
    let (p, q) = append_colon-injective a b x y h.1 k.1 (ground arith) in (ground arith, q)

-- Two inputs whose flag keys and salts have no ":" are equal only if all three parts are.
pub bucketing_input-injective :
    (flag salt key flag' salt' key' : JsString)
    → IsColonFree flag
    → IsColonFree salt
    → IsColonFree flag'
    → IsColonFree salt'
    → bucketing_input flag salt key ≡ bucketing_input flag' salt' key'
    → (flag ≡ flag') × (salt ≡ salt') × (key ≡ key')
unfolding bucketing_input
bucketing_input-injective flag salt key flag' salt' key' h k h' k' e =
    let (p, rest) = append_colon-injective flag flag' _ _ h h' e in
    let (q, r) = append_colon-injective salt salt' key key' k k' rest in (p, q, r)
