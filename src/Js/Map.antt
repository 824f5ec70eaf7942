-- ===== src/Js/Map.antt =====
-- `Map<string, V>`: the entries in insertion order. Setting a key that is there replaces its value.
pub mod Counting
use flagship_platform.Shared.{◌≡◌, refl, Option, none, some, List, [], ◌∷◌, arith, if◌then◌else◌}
use flagship_platform.Js.Text.{JsString, str_eq, str_eq_iff}

abbrev pub JsMap {ℓ} : Type ℓ → Type ℓ
JsMap V = List (JsString × V)

module _ {ℓ} {V : Type ℓ} where
  -- m.get(k)
  unfoldable pub get : JsMap V → JsString → Option V
  unfolding str_eq
  get [] k = none
  get ((j, v) ∷ m) k = if str_eq j k then some v else get m k

  -- m.set(k, v)
  unfoldable pub set : JsMap V → JsString → V → JsMap V
  unfolding str_eq
  set [] k v = (k, v) ∷ []
  set ((j, w) ∷ m) k v = if str_eq j k then (j, v) ∷ m else (j, w) ∷ set m k v

  pub get-set :
      (m : JsMap V) (k j : JsString) (v : V)
      → get (set m k v) j ≡ (if str_eq k j then some v else get m j)
  unfolding get set
  get-set [] k j v = refl
  get-set ((i, w) ∷ m) k j v =
      ground (arith, get-set m k j v, str_eq_iff i k, str_eq_iff i j, str_eq_iff k j)
