-- ===== src/Core/Operators/Order.antt =====
-- packages/core/src/operators.ts: `compareSemVer` as an order.
use flagship_platform.Shared.{◌<◌, ◌≡◌, refl, true, false, [], ◌∷◌, arith, ◌⊎◌}
use flagship_platform.Shared.Int.{pos, ◌-ℤ◌, ◌<ℤ◌}
use flagship_platform.Js.Text.{JsString, str_eq, str_lt, str_eq_iff}
use flagship_platform.Core.Operators.Semver.{SemVer, compare_prerelease, compare_semver}

str_lt-asymm : (a b : JsString) → str_lt a b ≡ true → str_lt b a ≡ false
unfolding str_lt
str_lt-asymm [] [] h = refl
str_lt-asymm [] (y ∷ b) h = refl
str_lt-asymm (x ∷ a) [] h = cc
str_lt-asymm (x ∷ a) (y ∷ b) h = ground (arith, str_lt-asymm a b)

str_lt-total : (a b : JsString) → str_eq a b ≡ false → str_lt a b ≡ false → str_lt b a ≡ true
unfolding str_lt str_eq
str_lt-total [] [] h k = cc
str_lt-total [] (y ∷ b) h k = cc
str_lt-total (x ∷ a) [] h k = refl
str_lt-total (x ∷ a) (y ∷ b) h k = ground (arith, str_lt-total a b)

str_lt_trans : (a b c : JsString) → str_lt a b ≡ true → str_lt b c ≡ true → str_lt a c ≡ true
unfolding str_lt
str_lt_trans [] [] c h k = cc
str_lt_trans (x ∷ a) [] c h k = cc
str_lt_trans [] (y ∷ b) [] h k = cc
str_lt_trans [] (y ∷ b) (z ∷ c) h k = refl
str_lt_trans (x ∷ a) (y ∷ b) [] h k = cc
str_lt_trans (x ∷ a) (y ∷ b) (z ∷ c) h k = ground (arith, str_lt_trans a b c)

compare_prerelease_antisymm :
    (p q : JsString) → compare_prerelease q p ≡ pos 0 -ℤ compare_prerelease p q
unfolding compare_prerelease ◌-ℤ◌
compare_prerelease_antisymm p q = ground (
  arith,
  str_eq_iff p q,
  str_eq_iff q p,
  str_eq_iff p [],
  str_eq_iff q [],
  str_lt-asymm p q,
  str_lt-total p q,
)

compare_prerelease-trans :
    (p q r : JsString)
    → compare_prerelease p q <ℤ pos 0
    → compare_prerelease q r <ℤ pos 0
    → compare_prerelease p r <ℤ pos 0
unfolding compare_prerelease
compare_prerelease-trans p q r h k = ground (
  arith,
  str_eq_iff p q,
  str_eq_iff q r,
  str_eq_iff p r,
  str_eq_iff p [],
  str_eq_iff q [],
  str_eq_iff r [],
  str_lt_trans p q r,
  str_lt-asymm p q,
)

-- Swapping the arguments of the version comparison changes its sign.
pub compare_semver_antisymm : (a b : SemVer) → compare_semver b a ≡ pos 0 -ℤ compare_semver a b
unfolding compare_semver ◌-ℤ◌
compare_semver_antisymm a b = ground (arith, compare_prerelease_antisymm a.prerelease b.prerelease)

compare_prerelease-eq-zero : (p q : JsString) → compare_prerelease p q ≡ pos 0 → p ≡ q
unfolding compare_prerelease
compare_prerelease-eq-zero p q h = ground (arith, str_eq_iff p q)

-- Only a version and itself compare as 0.
pub compare_semver-eq-zero : (a b : SemVer) → compare_semver a b ≡ pos 0 → a ≡ b
unfolding compare_semver
compare_semver-eq-zero a b h = ground (arith, compare_prerelease-eq-zero a.prerelease b.prerelease)

-- Lexicographic: by major, then minor, then patch, then prerelease.
abbrev pub Precedes : SemVer → SemVer → Type 0
Precedes a b =
    (a.major < b.major)
    ⊎ ((a.major ≡ b.major)
        × ((a.minor < b.minor)
            ⊎ ((a.minor ≡ b.minor)
                × ((a.patch < b.patch)
                    ⊎ ((a.patch ≡ b.patch)
                        × (compare_prerelease a.prerelease b.prerelease <ℤ pos 0))))))

Precedes-of_lt : (a b : SemVer) → compare_semver a b <ℤ pos 0 → Precedes a b
unfolding compare_semver
Precedes-of_lt a b h = ground arith

lt_of_Precedes : (a b : SemVer) → Precedes a b → compare_semver a b <ℤ pos 0
unfolding compare_semver
lt_of_Precedes a b h = ground arith

Precedes-trans : (a b c : SemVer) → Precedes a b → Precedes b c → Precedes a c
Precedes-trans a b c h k =
    ground (arith, compare_prerelease-trans a.prerelease b.prerelease c.prerelease)

-- The version order is transitive: of three versions, if the first sorts before the second and the
-- second before the third, the first sorts before the third.
pub compare_semver-trans :
    (a b c : SemVer)
    → compare_semver a b <ℤ pos 0
    → compare_semver b c <ℤ pos 0
    → compare_semver a c <ℤ pos 0
compare_semver-trans a b c h k =
    lt_of_Precedes a c (Precedes-trans a b c (Precedes-of_lt a b h) (Precedes-of_lt b c k))
