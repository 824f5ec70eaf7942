-- ===== src/ControlPlane/Repository/Authentication.antt =====
-- apps/control-plane/src/repository.ts: a key that was inserted is the key that authenticates.
use flagship_platform.Shared.{
  ◌≡◌, refl, sym, ap, ◌∙◌, Bool, true, false, not, ◌&&◌, some, List, [], ◌∷◌, ◌++◌, Option-cases,
  inl, inr, arith, filter, length, ltb, All, any,
}
use flagship_platform.Js.Text.{JsString, str_eq, str_eq_refl}
use flagship_platform.Core.Visibility.{KeyKind}
use flagship_platform.ControlPlane.Keys.{key_prefix, label, generate_api_key, verify_api_key}
use flagship_platform.ControlPlane.Keys.Roundtrip.{generate_api_key_roundtrip}
use flagship_platform.ControlPlane.Batch.{AuthenticatedKey}
use flagship_platform.ControlPlane.Database.{Database, Environment, ApiKey, done}
use flagship_platform.ControlPlane.Repository.{Engine, find, has_tenant, has_environment}
use flagship_platform.ControlPlane.Repository.Rows.{filter-append}
use flagship_platform.ControlPlane.Repository.Reads.{scope_of, first_verified, authenticate_key}
use flagship_platform.ControlPlane.Repository.Writes.{CreateApiKeyInput, key_row, insert_api_key}

module _ (engine : Engine) where
  first_verified-append :
      (db : Database) (plaintext : JsString) (ks : List ApiKey) (k : ApiKey)
      (scope : AuthenticatedKey)
      → All (λ other. verify_api_key engine.crypto plaintext other.key_hash ≡ false) ks
      → scope_of engine db k ≡ some scope
      → verify_api_key engine.crypto plaintext k.key_hash ≡ true
      → first_verified engine db plaintext (ks ++ k ∷ []) ≡ some scope
  unfolding first_verified
  first_verified-append db plaintext [] k scope others scoped verified =
      rw (first_verified, scoped, verified) refl
  first_verified-append db plaintext (other ∷ ks) k scope (wrong, others) scoped verified =
      let rest = first_verified-append db plaintext ks k scope others scoped verified in
      elim (Option-cases (scope_of engine db other)) [
        | inl gone ↦ rw (first_verified, gone) rest
        | inr (s, there) ↦ rw (first_verified, there, wrong) rest
      ]

  -- The label alone is long enough.
  generated_prefix :
      (kind : KeyKind) (secret : JsString)
      → ltb (length (key_prefix (label kind ++ secret))) 8 ≡ false
  unfolding key_prefix label
  generated_prefix KeyKind.client secret = ground arith
  generated_prefix KeyKind.server secret = ground arith

  -- The row that `POST /v1/api-keys` inserts.
  abbrev pub input_of : (t e name : JsString) → KeyKind → (secret : JsString) → CreateApiKeyInput
  input_of t e name kind secret =
      let key = generate_api_key engine.crypto kind secret in
      record {
        tenant_id = t;
        environment_id = e;
        name = name;
        kind = kind;
        prefix = key.prefix;
        hash = key.hash;
      }

  -- The rows that the prefix of a key narrows the search to.
  abbrev pub candidates : Database → (plaintext : JsString) → List ApiKey
  candidates db plaintext =
      filter (λ k. str_eq k.key_prefix (key_prefix plaintext) && not k.revoked) db.api_keys

  authenticate-candidates :
      (db : Database) (plaintext : JsString)
      → ltb (length (key_prefix plaintext)) 8 ≡ false
      → authenticate_key engine db plaintext
        ≡ first_verified engine db plaintext (candidates db plaintext)
  unfolding authenticate_key
  authenticate-candidates db plaintext long = rw (authenticate_key, long) refl

  candidates-insert :
      (db : Database) (plaintext : JsString) (k : ApiKey)
      → k.key_prefix ≡ key_prefix plaintext
      → k.revoked ≡ false
      → candidates (record db { api_keys = db.api_keys ++ k ∷ [] }) plaintext
        ≡ candidates db plaintext ++ k ∷ []
  unfolding filter
  candidates-insert db plaintext k same kept =
      let hit : (str_eq k.key_prefix (key_prefix plaintext) && not k.revoked) ≡ true =
        rw (same, kept, str_eq_refl) refl in
      filter-append _ db.api_keys (k ∷ []) ∙ rw hit refl

  any-find :
      (p : Environment → Bool) (es : List Environment) (e : Environment)
      → find p es ≡ some e
      → any p es ≡ true
  unfolding find any
  any-find p [] e h = absurd (ground arith)
  any-find p (x ∷ es) e h = ground (arith, any-find p es e)

  environment_known :
      (db : Database) (e : JsString) (environment : Environment)
      → find (λ x. str_eq x.id e) db.environments ≡ some environment
      → has_environment db e ≡ true
  unfolding has_environment
  environment_known db e environment found = any-find _ db.environments environment found

  key-authenticates :
      (db : Database) (id t e name : JsString) (kind : KeyKind) (secret : JsString)
      (environment : Environment)
      → find (λ x. str_eq x.id e) db.environments ≡ some environment
      → (let plaintext = (generate_api_key engine.crypto kind secret).plaintext in
          All
            (λ other. verify_api_key engine.crypto plaintext other.key_hash ≡ false)
            (candidates db plaintext))
      → authenticate_key engine
          (record db { api_keys = db.api_keys ++ key_row id (input_of t e name kind secret) ∷ [] })
          (generate_api_key engine.crypto kind secret).plaintext
        ≡ some (record {
          tenant_id = t;
          environment_id = e;
          environment_key = environment.key;
          kind = kind;
          api_key_id = id;
        })
  unfolding key_row generate_api_key scope_of
  key-authenticates db id t e name kind secret environment found others =
      let plaintext = (generate_api_key engine.crypto kind secret).plaintext in
      let row = key_row id (input_of t e name kind secret) in
      let db' : Database = record db { api_keys = db.api_keys ++ row ∷ [] } in
      let (found_again, _, verified) = generate_api_key_roundtrip engine.crypto kind secret in
      authenticate-candidates db' plaintext (generated_prefix kind secret)
      ∙ (ap (first_verified engine db' plaintext)
            (candidates-insert db plaintext row (sym found_again) refl)
          ∙ first_verified-append db' plaintext (candidates db plaintext) row _ others
              (rw (scope_of, found) refl) verified)

  -- A key that is created opens its own scope at once, with the tenant, the environment and the kind
  -- it was created for, when the tenant and the environment exist and no key before it with this
  -- prefix has a hash that the new text matches.
  pub insert_api_key-authenticates :
      (db : Database) (id t e name : JsString) (kind : KeyKind) (secret : JsString)
      (environment : Environment)
      → has_tenant db t ≡ true
      → find (λ x. str_eq x.id e) db.environments ≡ some environment
      → (let plaintext = (generate_api_key engine.crypto kind secret).plaintext in
          All
            (λ other. verify_api_key engine.crypto plaintext other.key_hash ≡ false)
            (candidates db plaintext))
      → let plaintext = (generate_api_key engine.crypto kind secret).plaintext in
        let (result, db') = insert_api_key id (input_of t e name kind secret) db in
        (result ≡ done id)
        × (authenticate_key engine db' plaintext
            ≡ some (record {
              tenant_id = t;
              environment_id = e;
              environment_key = environment.key;
              kind = kind;
              api_key_id = id;
            }))
  unfolding insert_api_key
  insert_api_key-authenticates db id t e name kind secret environment known found others =
      let there : has_environment db e ≡ true = environment_known db e environment found in
      rw (insert_api_key, known, there)
        (refl, key-authenticates db id t e name kind secret environment found others)
