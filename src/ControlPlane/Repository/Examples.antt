-- ===== src/ControlPlane/Repository/Examples.antt =====
-- The repository's operations on the sample database.
use flagship_platform.Shared.{
  ◌≡◌, refl, ◌≤◌, true, false, none, some, any, filter, In, inl, inr, All, length, ap,
}
use flagship_platform.Js.Text.{JsString, js, str_eq}
use flagship_platform.Core.Visibility.{KeyKind}
use flagship_platform.ControlPlane.Keys.{
  generate_api_key, verify_api_key, key_prefix, label, hash_api_key,
}
use flagship_platform.ControlPlane.Database.{FlagConfig, done}
use flagship_platform.ControlPlane.Repository.{has_tenant, find}
use flagship_platform.ControlPlane.Repository.Reads.{
  FlagDetail, get_flag, list_audit, authenticate_key, flags_of, config_of, detail_of, coalesce,
}
use flagship_platform.ControlPlane.Repository.Writes.{
  CreateFlagInput, key_taken, create_flag, insert_api_key, UpdateFlagConfigInput,
  update_flag_config,
}
use flagship_platform.ControlPlane.Repository.Authentication.{
  input_of, candidates, insert_api_key-authenticates,
}
use flagship_platform.ControlPlane.Repository.Audit.{IsListed, list_audit-bounded}
use flagship_platform.ControlPlane.Repository.Configuring.{create_flag-disabled}
use flagship_platform.ControlPlane.Repository.Configuring.Changed.{reread, update_flag_config-read}
use flagship_platform.ControlPlane.Server.Admin.Flags.{on_and_off}
use flagship_platform.ControlPlane.Samples.{
  sample_engine, sample_database, prod, checkout_record, checkout_config,
}

tenant_known : has_tenant sample_database (js "t1") ≡ true
unfolding has_tenant any str_eq
tenant_known = refl

prod_found : find (λ x. str_eq x.id (js "e1")) sample_database.environments ≡ some prod
unfolding find str_eq
prod_found = refl

abbrev plaintext : JsString
plaintext = js "fs_client_12ab"

others :
    All
      (λ other.
        verify_api_key sample_engine.crypto
          (generate_api_key sample_engine.crypto KeyKind.client (js "12ab")).plaintext
          other.key_hash
        ≡ false)
      (candidates sample_engine sample_database
        (generate_api_key sample_engine.crypto KeyKind.client (js "12ab")).plaintext)
unfolding verify_api_key generate_api_key key_prefix label hash_api_key filter str_eq
others = (refl, tt)

insert_api_key-authenticates_example :
    (let (result, db') =
        insert_api_key
          (js "k2")
          (input_of sample_engine (js "t1") (js "e1") (js "ios") KeyKind.client (js "12ab"))
          sample_database in
      (result ≡ done (js "k2"))
      × (authenticate_key sample_engine db'
            (generate_api_key sample_engine.crypto KeyKind.client (js "12ab")).plaintext
          ≡ some (record {
            tenant_id = js "t1";
            environment_id = js "e1";
            environment_key = js "prod";
            kind = KeyKind.client;
            api_key_id = js "k2";
          })))
insert_api_key-authenticates_example =
    insert_api_key-authenticates sample_engine sample_database (js "k2") (js "t1") (js "e1")
      (js "ios") KeyKind.client (js "12ab") prod tenant_known prod_found others

abbrev new_input : CreateFlagInput
new_input = record {
  tenant_id = js "t1";
  key = js "search";
  description = js "";
  variations = on_and_off;
  default_variation_key = js "on";
  off_variation_key = js "off";
}

key_free : key_taken sample_database (js "t1") (js "search") ≡ false
unfolding key_taken any str_eq
key_free = refl

id_new : (c : FlagConfig) → In c sample_database.configs → str_eq c.flag_id (js "f2") ≡ false
unfolding str_eq
id_new c (inl same) = ap (λ x. str_eq x.flag_id (js "f2")) same
id_new c (inr m) = absurd m

create_flag-disabled_example :
    (let (result, db') = create_flag 1000 (js "f2") (js "uuid") new_input sample_database in
      (result ≡ done tt)
      × ((flag : FlagDetail) × (get_flag db' (js "t1") (js "e1") (js "search") ≡ some flag)
          × (flag.enabled ≡ false)
          × (flag.salt ≡ js "uuid")
          × (flag.key ≡ js "search")
          × (flag.variations ≡ on_and_off)))
create_flag-disabled_example =
    create_flag-disabled 1000 (js "f2") (js "uuid") (js "e1") new_input sample_database key_free
      tenant_known id_new

abbrev turn_off : UpdateFlagConfigInput
turn_off = record {
  tenant_id = js "t1";
  environment_id = js "e1";
  key = js "checkout";
  enabled = some false;
  default_variation_key = none;
  off_variation_key = none;
  rules = none;
}

checkout_found :
    find (λ f. str_eq f.key (js "checkout")) (flags_of sample_database (js "t1"))
    ≡ some checkout_record
unfolding find flags_of filter str_eq
checkout_found = refl

checkout_configured : config_of sample_database (js "e1") (js "f1") ≡ some checkout_config
unfolding config_of find str_eq
checkout_configured = refl

update_flag_config-read_example :
    (let previous = detail_of checkout_record (coalesce (some checkout_config)) in
      let (result, db') = update_flag_config 1000 turn_off sample_database in
      (result ≡ done (some previous))
      × (get_flag db' (js "t1") (js "e1") (js "checkout")
          ≡ some (reread 1000 turn_off previous (some checkout_config))))
update_flag_config-read_example =
    update_flag_config-read 1000 turn_off sample_database checkout_record (some checkout_config)
      checkout_found checkout_configured refl

list_audit-bounded_example :
    (length (list_audit sample_database (js "t1") none (some 1000)) ≤ 200)
    × (length (list_audit sample_database (js "t1") none (some 1000)) ≤ 1000)
    × All
        (λ row. In row sample_database.audit_log × IsListed (js "t1") none row)
        (list_audit sample_database (js "t1") none (some 1000))
list_audit-bounded_example = list_audit-bounded sample_database (js "t1") none (some 1000)
