-- ===== src/Core/Operators/Examples.antt =====
-- The version order and the pattern cache at concrete values.
use flagship_platform.Shared.{◌≡◌, refl, some, [], arith}
use flagship_platform.Shared.Int.{pos, ◌<ℤ◌}
use flagship_platform.Js.Text.{JsString, js, str_eq, str_lt}
use flagship_platform.Core.Operators.Semver.{SemVer, parse_raw, compare_prerelease, compare_semver}
use flagship_platform.Core.Operators.Order.{compare_semver-trans}

abbrev candidate : JsString → SemVer
candidate prerelease = record { major = 1; minor = 2; patch = 3; prerelease = prerelease }

parse_raw-candidate : parse_raw (js "1.2.3-rc.9+b1") ≡ some (candidate (js "rc.9"))
unfolding parse_raw
parse_raw-candidate = refl

-- Prereleases are compared as strings.
tenth_before_ninth : compare_semver (candidate (js "rc.10")) (candidate (js "rc.9")) <ℤ pos 0
unfolding compare_semver compare_prerelease str_eq str_lt
tenth_before_ninth = omega arith

ninth_before_release : compare_semver (candidate (js "rc.9")) (candidate []) <ℤ pos 0
unfolding compare_semver compare_prerelease str_eq str_lt
ninth_before_release = omega arith

compare_semver-trans_example : compare_semver (candidate (js "rc.10")) (candidate []) <ℤ pos 0
compare_semver-trans_example =
    compare_semver-trans (candidate (js "rc.10")) (candidate (js "rc.9")) (candidate [])
      tenth_before_ninth ninth_before_release
