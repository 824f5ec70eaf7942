-- ===== src/Core/Murmur.antt =====
-- packages/core/src/murmur.ts: MurmurHash3 x86_32 over a byte array, and over a string by way of a
-- buffer that is kept between calls. `>>> 0` is `% 2 ^ 32`, and a read past the end of the array,
-- `undefined` in a bit operation, is 0.
mod Examples
pub mod Streaming
use Prim.Native.Nat.{bit_or, bit_xor, max}
use flagship_platform.Shared.{
  ℕ, zero, suc, ◌+◌, ◌-◌, ◌*◌, ◌/◌, ◌%◌, ◌^◌, Bool, List, [], ◌∷◌, ◌++◌, ◌==◌, ltb, if◌then◌else◌,
  length, drop, get_or,
}
use flagship_platform.Js.Text.{JsString}
use flagship_platform.Core.Utf8.{encode_into}

abbrev pub c1 : ℕ
c1 = 0xcc9e2d51

abbrev pub c2 : ℕ
c2 = 0x1b873593

-- x >>> 0
abbrev pub to_uint32 : ℕ → ℕ
to_uint32 x = x % 2 ^ 32

-- (x << k) >>> 0
abbrev pub shl : ℕ → ℕ → ℕ
shl x k = to_uint32 (x * 2 ^ k)

-- Math.imul(a, b) >>> 0
abbrev pub imul : ℕ → ℕ → ℕ
imul a b = to_uint32 (a * b)

-- (a ^ b) >>> 0
abbrev pub xor32 : ℕ → ℕ → ℕ
xor32 a b = to_uint32 (bit_xor a b)

unfoldable pub rotl32 : ℕ → ℕ → ℕ
rotl32 x r = to_uint32 (bit_or (shl x r) (x / 2 ^ (32 - r)))

-- The little-endian block of four bytes.
unfoldable pub word : ℕ → ℕ → ℕ → ℕ → ℕ
word a b c d = to_uint32 (bit_or (bit_or (bit_or a (shl b 8)) (shl c 16)) (shl d 24))

unfoldable pub scramble : ℕ → ℕ
unfolding rotl32
scramble k1 = imul (rotl32 (imul k1 c1) 15) c2

-- One round of the loop, for the block `k1`.
unfoldable pub mix_block : ℕ → ℕ → ℕ
unfolding scramble rotl32
mix_block h1 k1 = to_uint32 (imul (rotl32 (xor32 h1 (scramble k1)) 13) 5 + 0xe6546b64)

-- The cases of the `switch`; each falls through to the next.
unfoldable pub tail_one : (byte0 k1 h1 : ℕ) → ℕ
unfolding scramble
tail_one byte0 k1 h1 = xor32 h1 (scramble (to_uint32 (bit_xor k1 byte0)))

unfoldable pub tail_two : (byte0 byte1 k1 h1 : ℕ) → ℕ
unfolding tail_one
tail_two byte0 byte1 k1 h1 = tail_one byte0 (bit_xor k1 (shl byte1 8)) h1

unfoldable pub tail_three : (byte0 byte1 byte2 k1 h1 : ℕ) → ℕ
unfolding tail_two
tail_three byte0 byte1 byte2 k1 h1 = tail_two byte0 byte1 (bit_xor k1 (shl byte2 16)) h1

unfoldable pub finalize : (len h1 : ℕ) → ℕ
finalize len h1 =
    let h2 = xor32 h1 len in
    let h3 = xor32 h2 (h2 / 2 ^ 16) in
    let h4 = imul h3 0x85ebca6b in
    let h5 = xor32 h4 (h4 / 2 ^ 13) in let h6 = imul h5 0xc2b2ae35 in xor32 h6 (h6 / 2 ^ 16)

-- The `for` loop from block `i`, with `n` blocks to go.
unfoldable pub blocks : List ℕ → (n i h1 : ℕ) → ℕ
unfolding mix_block word
blocks bytes zero i h1 = h1
blocks bytes (suc n) i h1 =
    let o = i * 4 in
    let k1 =
      word (get_or bytes o 0) (get_or bytes (o + 1) 0) (get_or bytes (o + 2) 0)
        (get_or bytes (o + 3) 0) in
    blocks bytes n (i + 1) (mix_block h1 k1)

unfoldable pub mix_tail : List ℕ → (tail rest h1 : ℕ) → ℕ
unfolding tail_one tail_two tail_three
mix_tail bytes tail rest h1 =
    let byte0 = get_or bytes tail 0 in
    let byte1 = get_or bytes (tail + 1) 0 in
    let byte2 = get_or bytes (tail + 2) 0 in
    if rest == 3
    then tail_three byte0 byte1 byte2 0 h1
    else if rest == 2
    then tail_two byte0 byte1 0 h1
    else if rest == 1
    then tail_one byte0 0 h1
    else h1

-- murmurHash3x86_32(data, seed, byteLength)
unfoldable pub murmur_hash3_x86_32 : List ℕ → (seed len : ℕ) → ℕ
unfolding blocks mix_tail finalize
murmur_hash3_x86_32 bytes seed len =
    let nblocks = len / 4 in
    let h1 = blocks bytes nblocks 0 (to_uint32 seed) in
    finalize len (mix_tail bytes (nblocks * 4) (len % 4) h1)

unfoldable pub zeros : ℕ → List ℕ
zeros zero = []
zeros (suc n) = 0 ∷ zeros n

-- The buffer `scratch`, grown if the string may not fit.
unfoldable pub grow : (upper_bound : ℕ) → List ℕ → List ℕ
unfolding zeros
grow upper_bound scratch =
    if ltb (length scratch) upper_bound
    then zeros (max upper_bound (length scratch * 2))
    else scratch

-- murmurHash3x86_32String(input, seed), and the buffer that it leaves.
unfoldable pub murmur_hash3_x86_32_string : List ℕ → JsString → (seed : ℕ) → ℕ × List ℕ
unfolding murmur_hash3_x86_32 grow encode_into
murmur_hash3_x86_32_string scratch input seed =
    let scratch' = grow (length input * 3) scratch in
    let written = encode_into (length scratch') input in
    let scratch'' = written ++ drop (length written) scratch' in
    (murmur_hash3_x86_32 scratch'' seed (length written), scratch'')
