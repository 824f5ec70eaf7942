-- ===== src/Core/Utf8.antt =====
-- What packages/core/src/murmur.ts uses of `TextEncoder`: UTF-8 of a string of UTF-16 code units,
-- a lone surrogate read as U+FFFD, written into a buffer for as long as it has room.
use flagship_platform.Shared.{
  ℕ, ◌+◌, ◌-◌, ◌*◌, ◌/◌, ◌%◌, ◌≤◌, ◌<◌, ◌≡◌, refl, Bool, ◌&&◌, ◌||◌, List, [], ◌∷◌, ◌++◌, arith,
  ltb, leb, if◌then◌else◌, length, length-append, All,
}
use flagship_platform.Js.Text.{JsString}

is_high : ℕ → Bool
is_high c = leb 0xd800 c && ltb c 0xdc00

is_low : ℕ → Bool
is_low c = leb 0xdc00 c && ltb c 0xe000

-- A code unit that stands alone.
lone : ℕ → ℕ
unfolding is_high is_low
lone c = if is_high c || is_low c then 0xfffd else c

-- A surrogate pair.
pair : ℕ → ℕ → ℕ
pair c d = 0x10000 + (c - 0xd800) * 0x400 + (d - 0xdc00)

unfoldable pub scalars : JsString → List ℕ
unfolding lone pair is_high is_low
scalars [] = []
scalars (c ∷ []) = lone c ∷ []
scalars (c ∷ d ∷ s) =
    let paired = pair c d ∷ scalars s in
    let single = lone c ∷ scalars (d ∷ s) in if is_high c && is_low d then paired else single

unfoldable pub utf8_bytes : ℕ → List ℕ
utf8_bytes c =
    if ltb c 0x80
    then c ∷ []
    else if ltb c 0x800
    then (0xc0 + c / 0x40) ∷ (0x80 + c % 0x40) ∷ []
    else if ltb c 0x10000
    then (0xe0 + c / 0x1000) ∷ (0x80 + c / 0x40 % 0x40) ∷ (0x80 + c % 0x40) ∷ []
    else (0xf0 + c / 0x40000)
      ∷ (0x80 + c / 0x1000 % 0x40)
      ∷ (0x80 + c / 0x40 % 0x40)
      ∷ (0x80 + c % 0x40)
      ∷ []

encode_scalars : List ℕ → List ℕ
encode_scalars [] = []
encode_scalars (c ∷ cs) = utf8_bytes c ++ encode_scalars cs

-- new TextEncoder().encode(s)
unfoldable pub encode : JsString → List ℕ
unfolding encode_scalars scalars utf8_bytes
encode s = encode_scalars (scalars s)

fill : ℕ → List ℕ → List ℕ
fill room [] = []
fill room (c ∷ cs) =
    let bytes = utf8_bytes c in
    let rest = fill (room - length bytes) cs in
    if leb (length bytes) room then bytes ++ rest else []

-- The bytes that `encodeInto(s, buffer)` writes, for a buffer of `room` bytes.
unfoldable pub encode_into : ℕ → JsString → List ℕ
unfolding fill scalars utf8_bytes
encode_into room s = fill room (scalars s)

fill_enough :
    (room : ℕ) (cs : List ℕ) → length (encode_scalars cs) ≤ room → fill room cs ≡ encode_scalars cs
unfolding fill encode_scalars
fill_enough room [] h = refl
fill_enough room (c ∷ cs) h = ground (
  arith,
  length-append (utf8_bytes c) (encode_scalars cs),
  fill_enough (room - length (utf8_bytes c)) cs,
)

pub encode_into_enough :
    (room : ℕ) (s : JsString) → length (encode s) ≤ room → encode_into room s ≡ encode s
unfolding encode_into encode
encode_into_enough room s h = unfold encode_scalars fill in fill_enough room (scalars s) h

-- Each member is a 16-bit code unit.
abbrev pub IsUtf16 : JsString → Type 0
IsUtf16 s = All (λ c. c < 0x10000) s

length-utf8_bytes : (c : ℕ) → length (utf8_bytes c) ≤ 4
unfolding utf8_bytes
length-utf8_bytes c = ground arith

length-lone : (c : ℕ) → c < 0x10000 → length (utf8_bytes (lone c)) ≤ 3
unfolding utf8_bytes lone is_high is_low
length-lone c h = ground arith

length-scalars : (s : JsString) → IsUtf16 s → length (encode_scalars (scalars s)) ≤ length s * 3
unfolding encode_scalars scalars
length-scalars [] h = omega arith
length-scalars (c ∷ []) h = omega (arith, length-lone c h.0, length-append (utf8_bytes (lone c)) [])
length-scalars (c ∷ d ∷ s) (p, q) = ground (
  arith,
  length-scalars s q.1,
  length-scalars (d ∷ s) q,
  length-lone c p,
  length-utf8_bytes (pair c d),
  length-append (utf8_bytes (lone c)) (encode_scalars (scalars (d ∷ s))),
  length-append (utf8_bytes (pair c d)) (encode_scalars (scalars s)),
)

-- UTF-8 takes at most 3 bytes for each UTF-16 code unit.
pub length-encode : (s : JsString) → IsUtf16 s → length (encode s) ≤ length s * 3
unfolding encode
length-encode s h = length-scalars s h
