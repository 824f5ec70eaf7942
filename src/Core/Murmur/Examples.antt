-- ===== src/Core/Murmur/Examples.antt =====
-- Known hashes, and the streaming theorem at one of them.
use flagship_platform.Shared.{◌≡◌, refl, [], ◌∷◌, arith}
use flagship_platform.Js.Text.{js}
use flagship_platform.Core.Utf8.{encode}
use flagship_platform.Core.Murmur.{
  finalize, tail_one, tail_three, mix_block, word, murmur_hash3_x86_32_string,
}
use flagship_platform.Core.Murmur.Streaming.{hash_of, murmur_string-eq-hash_of}

hash_of_empty : hash_of 0 [] ≡ 0
unfolding hash_of finalize
hash_of_empty = refl

hash_of_a : hash_of 0 (js "a") ≡ 0x3c2569b2
unfolding hash_of finalize tail_one
hash_of_a = refl

hash_of_abc : hash_of 0 (js "abc") ≡ 0xb3dd93fa
unfolding hash_of finalize tail_three
hash_of_abc = refl

hash_of_hello : hash_of 0 (js "Hello, world!") ≡ 0xc0363e43
unfolding hash_of finalize tail_one mix_block word
hash_of_hello = refl

murmur_string_example :
    (murmur_hash3_x86_32_string (7 ∷ 7 ∷ 7 ∷ 7 ∷ []) (js "abé") 0).0 ≡ hash_of 0 (encode (js "abé"))
murmur_string_example = murmur_string-eq-hash_of (7 ∷ 7 ∷ 7 ∷ 7 ∷ []) (js "abé") 0 (omega arith)
