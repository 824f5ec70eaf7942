-- ===== src/ControlPlane/Keys/Roundtrip.antt =====
-- What a generated key is recognised as.
use flagship_platform.Shared.{◌≡◌, refl, true, some, arith, ◌++◌}
use flagship_platform.Js.Text.{JsString, starts_with}
use flagship_platform.Core.Visibility.{KeyKind}
use flagship_platform.ControlPlane.Keys.{
  Crypto, label, key_prefix, key_kind_of, hash_api_key, generate_api_key, verify_api_key,
}

key_kind_of-label :
    (kind : KeyKind) (secret : JsString) → key_kind_of (label kind ++ secret) ≡ some kind
unfolding key_kind_of label starts_with
key_kind_of-label KeyKind.client secret = refl
key_kind_of-label KeyKind.server secret = refl

verify-hash :
    (crypto : Crypto) (plaintext : JsString)
    → verify_api_key crypto plaintext (hash_api_key crypto plaintext) ≡ true
unfolding verify_api_key hash_api_key
verify-hash crypto plaintext =
    ground (arith, crypto.timing_safe_equal_refl (crypto.from_hex (crypto.sha256_hex plaintext)))

-- A generated key is found again by its prefix, is of its kind by its label, and is accepted against
-- its stored hash, whatever the secret.
pub generate_api_key_roundtrip :
    (crypto : Crypto) (kind : KeyKind) (secret : JsString)
    → (let key = generate_api_key crypto kind secret in
        (key_prefix key.plaintext ≡ key.prefix)
        × (key_kind_of key.plaintext ≡ some key.kind)
        × (verify_api_key crypto key.plaintext key.hash ≡ true))
unfolding generate_api_key key_prefix
generate_api_key_roundtrip crypto kind secret =
    (refl, key_kind_of-label kind secret, verify-hash crypto (label kind ++ secret))
