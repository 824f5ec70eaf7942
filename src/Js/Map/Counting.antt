-- ===== src/Js/Map/Counting.antt =====
-- How many entries of a map have a key that a set does not hold.
use flagship_platform.Shared.{
  ℕ, ◌+◌, ◌≤◌, ◌<◌, ◌≡◌, false, some, [], ◌∷◌, arith, if◌then◌else◌, length,
}
use flagship_platform.Js.Text.{JsString, str_eq_iff}
use flagship_platform.Js.Set.{JsSet, has, add, has-add}
use flagship_platform.Js.Map.{JsMap, get}

module _ {ℓ} {V : Type ℓ} where
  unfoldable pub remaining : JsMap V → JsSet → ℕ
  remaining [] s = 0
  remaining ((k, v) ∷ m) s = (if has s k then 0 else 1) + remaining m s

  pub remaining-le-length : (m : JsMap V) (s : JsSet) → remaining m s ≤ length m
  unfolding remaining
  remaining-le-length [] s = omega arith
  remaining-le-length ((k, v) ∷ m) s = ground (arith, remaining-le-length m s)

  pub remaining-add_le :
      (m : JsMap V) (s : JsSet) (j : JsString) → remaining m (add s j) ≤ remaining m s
  unfolding remaining
  remaining-add_le [] s j = omega arith
  remaining-add_le ((k, v) ∷ m) s j = ground (arith, remaining-add_le m s j, has-add s j k)

  -- A key that is there and that the set gains is counted no longer.
  pub remaining-add_lt :
      (m : JsMap V) (s : JsSet) (j : JsString) (v : V)
      → get m j ≡ some v
      → has s j ≡ false
      → remaining m (add s j) < remaining m s
  unfolding remaining get
  remaining-add_lt [] s j v e h = cc
  remaining-add_lt ((k, w) ∷ m) s j v e h = ground (
    arith,
    remaining-add_lt m s j v,
    remaining-add_le m s j,
    has-add s j k,
    str_eq_iff k j,
    str_eq_iff j k,
  )
