-- ===== src/Js/Text.antt =====
-- A JavaScript string is the list of its UTF-16 code units; `===`, `<`, `startsWith`, `endsWith`,
-- `includes` and `slice(0, n)` compare and cut code units.
use Prim.Native.Char.{code}
use Prim.Native.String.{String}
use flagship_platform.Shared.{
  ℕ, ◌≡◌, refl, ◌↔◌, Bool, true, false, ◌&&◌, ◌||◌, List, [], ◌∷◌, arith, ◌==◌, ==_iff, ltb, length,
  drop, ◌-◌, leb,
}

abbrev pub JsString : Type 0
JsString = List ℕ

-- A literal of the source. All of them are ASCII, where a code point is one code unit.
abbrev pub js : String → JsString
js String.[] = []
js (String.◌∷◌ c s) = code c ∷ js s

-- a === b
unfoldable pub str_eq : JsString → JsString → Bool
str_eq [] [] = true
str_eq [] (y ∷ ys) = false
str_eq (x ∷ xs) [] = false
str_eq (x ∷ xs) (y ∷ ys) = (x == y) && str_eq xs ys

str_eq_sound : (a b : JsString) → str_eq a b ≡ true → a ≡ b
unfolding str_eq
str_eq_sound [] [] h = refl
str_eq_sound [] (y ∷ ys) h = cc
str_eq_sound (x ∷ xs) [] h = cc
str_eq_sound (x ∷ xs) (y ∷ ys) h = ground (arith, ==_iff x y, str_eq_sound xs ys)

pub str_eq_refl : (a : JsString) → str_eq a a ≡ true
unfolding str_eq
str_eq_refl [] = refl
str_eq_refl (x ∷ xs) = ground (arith, str_eq_refl xs)

pub str_eq_iff : (a b : JsString) → (str_eq a b ≡ true) ↔ (a ≡ b)
str_eq_iff a b = (str_eq_sound a b, λ e. ground (arith, e, str_eq_refl a))

-- a < b, code unit by code unit
unfoldable pub str_lt : JsString → JsString → Bool
str_lt [] [] = false
str_lt [] (y ∷ ys) = true
str_lt (x ∷ xs) [] = false
str_lt (x ∷ xs) (y ∷ ys) = ltb x y || ((x == y) && str_lt xs ys)

-- a.startsWith(b)
unfoldable pub starts_with : JsString → JsString → Bool
starts_with xs [] = true
starts_with [] (y ∷ ys) = false
starts_with (x ∷ xs) (y ∷ ys) = (x == y) && starts_with xs ys

-- a.includes(b)
unfoldable pub includes : JsString → JsString → Bool
unfolding starts_with
includes [] b = starts_with [] b
includes (x ∷ xs) b = starts_with (x ∷ xs) b || includes xs b

-- a.endsWith(b)
unfoldable pub ends_with : JsString → JsString → Bool
unfolding str_eq
ends_with a b = leb (length b) (length a) && str_eq (drop (length a - length b) a) b
