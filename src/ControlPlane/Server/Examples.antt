-- ===== src/ControlPlane/Server/Examples.antt =====
-- Admin requests on the sample database.
use flagship_platform.Shared.{◌⊎◌}
use flagship_platform.Js.Value.{JsValue, cons, nil, field, end}
use flagship_platform.Js.Number.{of_nat, is_integer, num_lt}
use flagship_platform.Shared.Int.{◌-ℤ◌}
use flagship_platform.Core.Visibility.{KeyKind}
use flagship_platform.ControlPlane.Batch.{
  AuthenticatedKey, validate_batch, validate_from, classify, row_of, field_or_reason, usable_string,
  and_then, usable_version, usable_instant,
}
use flagship_platform.ControlPlane.Writer.{new_writer, enqueue}
use flagship_platform.ControlPlane.Ruleset.Nodes.{property}
use flagship_platform.ControlPlane.Server.Sdk.{list_of, ingest, ingest_events}
use flagship_platform.ControlPlane.Server.Ingest.{IsTaken, IsShed, ingest_events-accounts}
use flagship_platform.Shared.{
  ◌≡◌, refl, ◌≢◌, true, false, Option, none, some, [], ◌∷◌, any, filter, In, inl, inr, arith, subst,
  sym,
}
use flagship_platform.Js.Text.{JsString, js, str_eq}
use flagship_platform.Js.Set.{has, add}
use flagship_platform.Core.Bucketing.{bucketing_input}
use flagship_platform.ControlPlane.Ruleset.{set_of}
use flagship_platform.ControlPlane.Database.{FlagRecord, with_transaction}
use flagship_platform.ControlPlane.Repository.{has_tenant}
use flagship_platform.ControlPlane.Repository.Writes.{
  write_audit, has_environment_or_null, new_flag, key_taken, insert_flag, insert_config,
  insert_configs, environments_of, create_flag,
}
use flagship_platform.ControlPlane.Server.{Supply, require_admin, respond, present}
use flagship_platform.ControlPlane.Server.Admin.Flags.{
  is_key_unit, are_key_units, is_key, after_create, create_declared, declares_fallbacks,
  create_checked, post_flags, on_and_off,
}
use flagship_platform.ControlPlane.Server.Routes.{
  AdminRequest, create_flag_request, admin_request, admin_handler, admin_route, Site, serve,
  started, served,
}
use flagship_platform.ControlPlane.Server.Effects.{tenant_of}
use flagship_platform.ControlPlane.Server.Isolation.{view_of, serve-isolated}
use flagship_platform.ControlPlane.Server.Refusals.{is_refusal, serve_refusal-unchanged}
use flagship_platform.ControlPlane.Server.FlagKeys.{Reach-inputs_distinct}
use flagship_platform.ControlPlane.Samples.{
  sample_database, sample_site, sample_settings, sample_supply,
}

abbrev admin : Option JsString
admin = some (js "Bearer secret")

abbrev creating : JsString → AdminRequest
creating key = create_flag_request (some (js "t1")) (some key) none none none none

abbrev creating_site : JsString → Supply → Site → Site
creating_site key supply site =
    (serve sample_settings supply (admin_request admin (creating key)) site).1

not_globex : ¬ (tenant_of (creating (js "new")) ≡ some (js "t2"))
unfolding tenant_of present
not_globex = λ same. ground (arith, same)

serve-isolated_example :
    view_of (js "t2") (creating_site (js "new") sample_supply sample_site).database
    ≡ view_of (js "t2") sample_database
serve-isolated_example =
    serve-isolated sample_settings sample_supply admin (creating (js "new")) sample_site (js "t2")
      not_globex

-- The key of a flag that the tenant has: 409.
taken_refused :
    is_refusal
      (serve sample_settings sample_supply
        (admin_request admin (creating (js "checkout")))
        sample_site).0
    ≡ true
unfolding serve respond admin_route require_admin present str_eq admin_handler post_flags
    create_checked is_key are_key_units is_key_unit declares_fallbacks set_of has add
    create_declared create_flag with_transaction insert_flag key_taken new_flag any after_create
    is_refusal
taken_refused = refl

serve_refusal-unchanged_example :
    creating_site (js "checkout") sample_supply sample_site ≡ sample_site
serve_refusal-unchanged_example =
    serve_refusal-unchanged sample_settings sample_supply admin (creating (js "checkout"))
      sample_site taken_refused

abbrev empty_site : Site
empty_site = record {
  database = record sample_database { flags = []; configs = [] };
  writer = none;
}

abbrev second_supply : Supply
second_supply = record sample_supply { id = js "n2"; salt = js "uuid2" }

abbrev two_flags : Site
two_flags = creating_site (js "b") second_supply (creating_site (js "a") sample_supply empty_site)

abbrev flag_row : (id salt key : JsString) → FlagRecord
flag_row id salt key = record {
  id = id;
  tenant_id = js "t1";
  key = key;
  description = [];
  salt = salt;
  bucket_by = js "key";
  variations = on_and_off;
  archived = false;
  updated_at = 1000;
}

two_flags_rows :
    two_flags.database.flags
    ≡ flag_row (js "n1") (js "uuid") (js "a") ∷ flag_row (js "n2") (js "uuid2") (js "b") ∷ []
unfolding serve respond admin_route require_admin present str_eq admin_handler post_flags
    create_checked is_key are_key_units is_key_unit declares_fallbacks set_of has add
    create_declared create_flag with_transaction insert_flag key_taken new_flag any after_create
    write_audit has_tenant has_environment_or_null environments_of filter insert_configs
    insert_config
two_flags_rows = refl

Reach-inputs_distinct_example :
    (is_key (js "a") ≡ true)
    × (is_key (js "b") ≡ true)
    × (bucketing_input (js "a") (js "uuid") (js "u1")
        ≢ bucketing_input (js "b") (js "uuid2") (js "u2"))
Reach-inputs_distinct_example =
    Reach-inputs_distinct sample_settings empty_site two_flags
      (flag_row (js "n1") (js "uuid") (js "a")) (flag_row (js "n2") (js "uuid2") (js "b")) (js "u1")
      (js "u2") refl
      (served second_supply (admin_request admin (creating (js "b")))
        (served sample_supply (admin_request admin (creating (js "a"))) started))
      (subst (In _) (sym two_flags_rows) (inl refl))
      (subst (In _) (sym two_flags_rows) (inr (inl refl))) (omega arith) (omega arith)
      (λ same. ground (arith, same))

abbrev client_scope : AuthenticatedKey
client_scope = record {
  tenant_id = js "t1";
  environment_id = js "e1";
  environment_key = js "prod";
  kind = KeyKind.client;
  api_key_id = js "k1";
}

-- An event that is no object, and one that is valid.
abbrev mixed_batch : JsValue
mixed_batch = JsValue.array (
    cons JsValue.null (
      cons
        (JsValue.object (
          field (js "flagKey") (JsValue.string (js "checkout")) (
            field (js "variationKey") (JsValue.string (js "on")) (
              field (js "contextKey") (JsValue.string (js "u1")) (
                field (js "dedupeKey") (JsValue.string (js "u1:checkout:3:1")) (
                  field (js "rulesetVersion") (JsValue.number (of_nat 3)) (
                    field (js "timestamp") (JsValue.string (js "1970-01-01T00:00:00.000Z"))
                      end)))))))
        nil))

-- The writer takes the one row.
mixed_batch_taken :
    let (answer, writer) =
      ingest_events sample_settings sample_supply client_scope mixed_batch new_writer in
    (answer.status ≡ 202) × (writer.accepted ≡ 1)
unfolding ingest_events ingest list_of validate_batch validate_from classify row_of field_or_reason
    usable_string and_then usable_version usable_instant enqueue property str_eq is_integer of_nat
    num_lt ◌-ℤ◌
mixed_batch_taken = (refl, refl)

ingest_events-accounts_example :
    (let (answer, writer) =
        ingest_events sample_settings sample_supply client_scope mixed_batch new_writer in
      IsTaken sample_settings sample_supply client_scope mixed_batch new_writer answer writer
      ⊎ IsShed new_writer answer writer)
ingest_events-accounts_example =
    ingest_events-accounts sample_settings sample_supply client_scope mixed_batch new_writer
