-- ===== src/Core/Murmur/Streaming.antt =====
-- The hash of packages/core/src/murmur.ts against its description by recursion on the bytes.
use Prim.Native.Nat.{max}
use flagship_platform.Shared.{
  ℕ, zero, suc, ◌+◌, ◌*◌, ◌/◌, ◌%◌, ◌<◌, ◌≡◌, refl, List, [], ◌∷◌, ◌++◌, arith, length, drop,
  get_or, append_assoc, length-append, ap, ◌≤◌,
}
use flagship_platform.Js.Text.{JsString}
use flagship_platform.Core.Utf8.{IsUtf16, encode, encode_into_enough, length-encode}
use flagship_platform.Core.Murmur.{
  to_uint32, word, mix_block, tail_one, tail_two, tail_three, finalize, blocks, mix_tail,
  murmur_hash3_x86_32, zeros, grow, murmur_hash3_x86_32_string,
}

-- Blocks of four bytes from the front, then the tail of up to three.
absorb : ℕ → List ℕ → ℕ
absorb h1 [] = h1
absorb h1 (a ∷ []) = tail_one a 0 h1
absorb h1 (a ∷ b ∷ []) = tail_two a b 0 h1
absorb h1 (a ∷ b ∷ c ∷ []) = tail_three a b c 0 h1
absorb h1 (a ∷ b ∷ c ∷ d ∷ rest) = absorb (mix_block h1 (word a b c d)) rest

-- MurmurHash3 x86_32 of exactly these bytes.
unfoldable pub hash_of : (seed : ℕ) → List ℕ → ℕ
unfolding absorb
hash_of seed bytes = finalize (length bytes) (absorb (to_uint32 seed) bytes)

get_or-append :
    (pre rest : List ℕ) (i j : ℕ) → i ≡ length pre + j → get_or (pre ++ rest) i 0 ≡ get_or rest j 0
get_or-append [] rest i j e = ap (λ k. get_or rest k 0) (omega arith)
get_or-append (x ∷ pre) rest zero j e = absurd (omega arith)
get_or-append (x ∷ pre) rest (suc i) j e = get_or-append pre rest i j (omega arith)

mix_tail-append :
    (pre bytes junk : List ℕ) (i r h1 : ℕ)
    → length pre ≡ i * 4
    → length bytes ≡ r
    → r < 4
    → mix_tail (pre ++ (bytes ++ junk)) (i * 4) r h1 ≡ absorb h1 bytes
unfolding mix_tail absorb
mix_tail-append pre [] junk i r h1 p q b = ground arith
mix_tail-append pre (x ∷ []) junk i r h1 p q b =
    ground (arith, get_or-append pre (x ∷ junk) (i * 4) 0)
mix_tail-append pre (x ∷ y ∷ []) junk i r h1 p q b = ground (
  arith,
  get_or-append pre (x ∷ y ∷ junk) (i * 4) 0,
  get_or-append pre (x ∷ y ∷ junk) (i * 4 + 1) 1,
)
mix_tail-append pre (x ∷ y ∷ z ∷ []) junk i r h1 p q b = ground (
  arith,
  get_or-append pre (x ∷ y ∷ z ∷ junk) (i * 4) 0,
  get_or-append pre (x ∷ y ∷ z ∷ junk) (i * 4 + 1) 1,
  get_or-append pre (x ∷ y ∷ z ∷ junk) (i * 4 + 2) 2,
)
mix_tail-append pre (x ∷ y ∷ z ∷ w ∷ rest) junk i r h1 p q b = absurd (omega arith)

-- The loop from block `i`, after `pre`, and the tail that follows it.
blocks-append :
    (n r i h1 : ℕ) (pre bytes junk : List ℕ)
    → length pre ≡ i * 4
    → length bytes ≡ n * 4 + r
    → r < 4
    → mix_tail (pre ++ (bytes ++ junk)) ((i + n) * 4) r (blocks (pre ++ (bytes ++ junk)) n i h1)
      ≡ absorb h1 bytes
unfolding blocks absorb
blocks-append zero r i h1 pre bytes junk p q b =
    let e : i + 0 ≡ i = omega arith in
    rw e (mix_tail-append pre bytes junk i r h1 p (omega arith) b)
blocks-append (suc n) r i h1 pre (x ∷ y ∷ z ∷ w ∷ rest) junk p q b =
    let front = x ∷ y ∷ z ∷ w ∷ [] in
    let later : (i + 1) + n ≡ i + suc n = omega arith in
    let ih =
      blocks-append n r (i + 1) (mix_block h1 (word x y z w)) (pre ++ front) rest junk
        (omega (arith, length-append pre front)) (omega arith) b in
    rw
      (
        get_or-append pre (x ∷ y ∷ z ∷ w ∷ (rest ++ junk)) (i * 4) 0 (omega arith),
        get_or-append pre (x ∷ y ∷ z ∷ w ∷ (rest ++ junk)) (i * 4 + 1) 1 (omega arith),
        get_or-append pre (x ∷ y ∷ z ∷ w ∷ (rest ++ junk)) (i * 4 + 2) 2 (omega arith),
        get_or-append pre (x ∷ y ∷ z ∷ w ∷ (rest ++ junk)) (i * 4 + 3) 3 (omega arith),
      )
      (rw (append_assoc pre front (rest ++ junk), later) at ih)
blocks-append (suc n) r i h1 pre [] junk p q b = absurd (omega arith)
blocks-append (suc n) r i h1 pre (x ∷ []) junk p q b = absurd (omega arith)
blocks-append (suc n) r i h1 pre (x ∷ y ∷ []) junk p q b = absurd (omega arith)
blocks-append (suc n) r i h1 pre (x ∷ y ∷ z ∷ []) junk p q b = absurd (omega arith)

-- Of a buffer that begins with the bytes, the hash reads only the bytes.
pub murmur-prefix :
    (bytes junk : List ℕ) (seed : ℕ)
    → murmur_hash3_x86_32 (bytes ++ junk) seed (length bytes) ≡ hash_of seed bytes
unfolding murmur_hash3_x86_32 hash_of
murmur-prefix bytes junk seed =
    let n = length bytes / 4 in
    let start : 0 + n ≡ n = omega arith in
    ap (finalize (length bytes)) (
      rw start at (
        blocks-append n (length bytes % 4) 0 (to_uint32 seed) [] bytes junk refl (omega arith)
          (omega arith)))

length-zeros : (n : ℕ) → length (zeros n) ≡ n
unfolding zeros
length-zeros zero = refl
length-zeros (suc n) = ap suc (length-zeros n)

length-grow : (bound : ℕ) (scratch : List ℕ) → bound ≤ length (grow bound scratch)
unfolding grow
length-grow bound scratch =
    unfold zeros in ground (arith, length-zeros (max bound (length scratch * 2)))

-- Growing never shrinks the buffer.
length-grow_mono : (bound : ℕ) (scratch : List ℕ) → length scratch ≤ length (grow bound scratch)
unfolding grow
length-grow_mono bound scratch =
    unfold zeros in ground (arith, length-zeros (max bound (length scratch * 2)))

-- The hash of a string of 16-bit code units is the hash of exactly its UTF-8 bytes, whatever the
-- shared buffer held and however long it was.
pub murmur_string-eq-hash_of :
    (scratch : List ℕ) (input : JsString) (seed : ℕ)
    → IsUtf16 input
    → (murmur_hash3_x86_32_string scratch input seed).0 ≡ hash_of seed (encode input)
unfolding murmur_hash3_x86_32_string
murmur_string-eq-hash_of scratch input seed h =
    let buffer = grow (length input * 3) scratch in
    let room : length (encode input) ≤ length buffer =
      omega (arith, length-encode input h, length-grow (length input * 3) scratch) in
    let whole = encode_into_enough (length buffer) input room in
    rw whole (murmur-prefix (encode input) (drop (length (encode input)) buffer) seed)
