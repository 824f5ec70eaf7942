-- ===== src/ControlPlane/Keys.antt =====
-- apps/control-plane/src/keys.ts. Random bytes, the hash and the comparison of buffers are the
-- engine's; the `catch` of `verifyApiKey` is not reached, since `Buffer.from` of a string with an
-- encoding does not throw.
pub mod Roundtrip
mod Examples
use flagship_platform.Shared.{
  ℕ, ◌≡◌, Bool, true, false, not, Option, none, some, List, ◌++◌, if◌then◌else◌, length, take, ◌==◌,
}
use flagship_platform.Js.Text.{JsString, js, starts_with}
use flagship_platform.Core.Visibility.{KeyKind}

-- `createHash('sha256')` of a text as hex, `Buffer.from` of a hex text, and `timingSafeEqual`, which
-- holds of a buffer and itself.
pub record Crypto : Type 0 where
  pub sha256_hex : JsString → JsString
  pub from_hex : JsString → List ℕ
  pub timing_safe_equal : List ℕ → List ℕ → Bool
  pub timing_safe_equal_refl : (bytes : List ℕ) → timing_safe_equal bytes bytes ≡ true

abbrev pub prefix_length : ℕ
prefix_length = 12

pub record GeneratedKey : Type 0 where
  pub plaintext : JsString
  pub prefix : JsString
  pub hash : JsString
  pub kind : KeyKind

unfoldable pub label : KeyKind → JsString
label KeyKind.client = js "fs_client_"
label KeyKind.server = js "fs_server_"

unfoldable pub key_prefix : (plaintext : JsString) → JsString
key_prefix plaintext = take prefix_length plaintext

unfoldable pub key_kind_of : (plaintext : JsString) → Option KeyKind
key_kind_of plaintext =
    if starts_with plaintext (js "fs_client_")
    then some KeyKind.client
    else if starts_with plaintext (js "fs_server_")
    then some KeyKind.server
    else none

module _ (crypto : Crypto) where
  unfoldable pub hash_api_key : (plaintext : JsString) → JsString
  hash_api_key plaintext = crypto.sha256_hex plaintext

  -- `generateApiKey`, with the text of the random bytes.
  unfoldable pub generate_api_key : KeyKind → (secret : JsString) → GeneratedKey
  generate_api_key kind secret =
      let plaintext = label kind ++ secret in
      record {
        plaintext = plaintext;
        prefix = take prefix_length plaintext;
        hash = hash_api_key plaintext;
        kind = kind;
      }

  unfoldable pub verify_api_key : (plaintext expected_hash : JsString) → Bool
  verify_api_key plaintext expected_hash =
      let actual = crypto.from_hex (hash_api_key plaintext) in
      let expected = crypto.from_hex expected_hash in
      if not (length actual == length expected)
      then false
      else crypto.timing_safe_equal actual expected
