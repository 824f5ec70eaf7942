-- ===== src/Core/Operators/Semver.antt =====
-- packages/core/src/operators.ts: the version pattern and the comparison of versions.
use flagship_platform.Shared.{
  ℕ, ◌+◌, ◌-◌, ◌*◌, Bool, true, false, not, ◌&&◌, ◌||◌, Option, none, some, [], ◌∷◌, leb, ◌==◌,
  if◌then◌else◌, ◌>>=◌,
}
use flagship_platform.Shared.Int.{ℤ, pos, negsuc, sub_ℕ}
use flagship_platform.Js.Text.{JsString, str_eq, str_lt}

pub record SemVer : Type 0 where
  pub major : ℕ
  pub minor : ℕ
  pub patch : ℕ
  pub prerelease : JsString

is_digit : ℕ → Bool
is_digit c = leb b'0' c && leb c b'9'

-- [0-9A-Za-z.-]
is_identifier_char : ℕ → Bool
unfolding is_digit
is_identifier_char c =
    is_digit c || (leb b'A' c && leb c b'Z') || (leb b'a' c && leb c b'z') || c == b'.' || c == b'-'

abbrev semver : ℕ → ℕ → ℕ → JsString → SemVer
semver major minor patch prerelease = record {
  major = major;
  minor = minor;
  patch = patch;
  prerelease = prerelease;
}

is_empty : JsString → Bool
is_empty [] = true
is_empty (c ∷ s) = false

-- The longest run of code units that pass the test, and what follows it.
span : (ℕ → Bool) → JsString → JsString × JsString
span p [] = ([], [])
span p (c ∷ s) = let (run, rest) = span p s in if p c then (c ∷ run, rest) else ([], c ∷ s)

-- A run that may not be empty.
nonempty : JsString × JsString → Option (JsString × JsString)
nonempty ([], rest) = none
nonempty (c ∷ run, rest) = some (c ∷ run, rest)

run_of : (ℕ → Bool) → JsString → Option (JsString × JsString)
unfolding span nonempty
run_of p s = nonempty (span p s)

-- Number(digits)
to_number_from : ℕ → JsString → ℕ
to_number_from n [] = n
to_number_from n (c ∷ s) = to_number_from (n * 10 + (c - b'0')) s

-- The code unit `c`, and what follows it.
expect : ℕ → JsString → Option JsString
expect c [] = none
expect c (d ∷ s) = if d == c then some s else none

-- (?:-([0-9A-Za-z.-]+))?, with "" where the group is absent
prerelease_of : JsString → Option (JsString × JsString)
unfolding run_of is_identifier_char
prerelease_of [] = some ([], [])
prerelease_of (c ∷ s) = if c == b'-' then run_of is_identifier_char s else some ([], c ∷ s)

-- (?:\+[0-9A-Za-z.-]+)?$
ends_after_build : JsString → Bool
unfolding run_of is_identifier_char
ends_after_build [] = true
ends_after_build (c ∷ s) =
    (c == b'+')
    && elim (run_of is_identifier_char s) [ none ↦ false | some (run, rest) ↦ is_empty rest ]

-- What `parseSemVer` makes of a string.
unfoldable pub parse_raw : JsString → Option SemVer
unfolding is_empty run_of expect prerelease_of ends_after_build to_number_from is_digit
parse_raw s = do
  (major, after_major) ← run_of is_digit s
  s1 ← expect b'.' after_major
  (minor, after_minor) ← run_of is_digit s1
  s2 ← expect b'.' after_minor
  (patch, s3) ← run_of is_digit s2
  (prerelease, s4) ← prerelease_of s3
  let version =
      semver (to_number_from 0 major) (to_number_from 0 minor) (to_number_from 0 patch) prerelease
  if ends_after_build s4 then some version else none

-- The last four lines of `compareSemVer`.
unfoldable pub compare_prerelease : JsString → JsString → ℤ
compare_prerelease p q =
    if str_eq p q
    then pos 0
    else if str_eq p []
    then pos 1
    else if str_eq q []
    then negsuc 0
    else if str_lt p q
    then negsuc 0
    else pos 1

unfoldable pub compare_semver : SemVer → SemVer → ℤ
compare_semver a b =
    if not (a.major == b.major)
    then sub_ℕ a.major b.major
    else if not (a.minor == b.minor)
    then sub_ℕ a.minor b.minor
    else if not (a.patch == b.patch)
    then sub_ℕ a.patch b.patch
    else compare_prerelease a.prerelease b.prerelease
