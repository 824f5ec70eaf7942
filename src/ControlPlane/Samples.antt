-- ===== src/ControlPlane/Samples.antt =====
-- Services and a small database, for the tests and the concrete instances of the theorems. The rows
-- are those of the sample ruleset of Core/Samples.
use flagship_platform.Shared.{true, false, not, none, some, [], ◌∷◌}
use flagship_platform.Shared.Int.{pos}
use flagship_platform.Js.Text.{js, str_eq, str_eq_refl, str_lt}
use flagship_platform.Core.Samples.{checkout, beta, staff}
use flagship_platform.Core.Visibility.{KeyKind}
use flagship_platform.ControlPlane.Keys.{Crypto}
use flagship_platform.ControlPlane.Batch.{Dates}
use flagship_platform.ControlPlane.Database.{
  Tenant, Environment, FlagRecord, FlagConfig, ApiKey, Database,
}
use flagship_platform.ControlPlane.Repository.{Engine}
use flagship_platform.ControlPlane.Server.{Settings, Supply}
use flagship_platform.ControlPlane.Server.Routes.{Site}

-- The identity in place of the hash and of the decoding.
abbrev pub plain_crypto : Crypto
plain_crypto = record {
  sha256_hex = λ s. s;
  from_hex = λ s. s;
  timing_safe_equal = str_eq;
  timing_safe_equal_refl = str_eq_refl;
}

-- An engine on which each date is the start of the epoch.
abbrev pub epoch_dates : Dates
epoch_dates = record {
  to_text = λ _. js "1970-01-01T00:00:00.000Z";
  time_of = λ _. some (pos 0);
  to_iso_string = λ _. js "1970-01-01T00:00:00.000Z";
}

abbrev pub sample_engine : Engine
sample_engine = record {
  text_le = λ a b. not (str_lt b a);
  stringify = λ _. js "{}";
  string_of = λ _. js "1";
  crypto = plain_crypto;
}

abbrev pub sample_settings : Settings
sample_settings = record {
  engine = sample_engine;
  dates = epoch_dates;
  admin_token = some (js "secret");
  has_data_plane = true;
  max_in_flight_rows = 50000;
}

abbrev pub sample_supply : Supply
sample_supply = record {
  now = 1000;
  served_at = js "";
  id = js "n1";
  salt = js "uuid";
  secret = js "abcdef";
  push_succeeds = true;
}

abbrev pub acme : Tenant
acme = record { id = js "t1"; slug = js "acme"; name = js "Acme" }

abbrev pub globex : Tenant
globex = record { id = js "t2"; slug = js "globex"; name = js "Globex" }

abbrev pub prod : Environment
prod = record {
  id = js "e1";
  tenant_id = js "t1";
  key = js "prod";
  name = js "Production";
  version = 2;
}

abbrev pub staging : Environment
staging = record {
  id = js "e2";
  tenant_id = js "t2";
  key = js "staging";
  name = js "Staging";
  version = 5;
}

abbrev pub checkout_record : FlagRecord
checkout_record = record {
  id = js "f1";
  tenant_id = js "t1";
  key = checkout.key;
  description = js "";
  salt = checkout.salt;
  bucket_by = checkout.bucket_by;
  variations = checkout.variations;
  archived = false;
  updated_at = 10;
}

abbrev pub checkout_config : FlagConfig
checkout_config = record {
  tenant_id = js "t1";
  flag_id = js "f1";
  environment_id = js "e1";
  enabled = checkout.enabled;
  default_variation_key = checkout.default_variation_key;
  off_variation_key = checkout.off_variation_key;
  rules = checkout.rules;
  prerequisites = checkout.prerequisites;
}

-- The client key of the environment `prod`; its hash is its text.
abbrev pub client_key : ApiKey
client_key = record {
  id = js "k1";
  tenant_id = js "t1";
  environment_id = js "e1";
  name = js "web";
  kind = KeyKind.client;
  key_prefix = js "fs_client_12";
  key_hash = js "fs_client_1234";
  last_used_at = none;
  revoked = false;
}

abbrev pub sample_database : Database
sample_database = record {
  tenants = acme ∷ globex ∷ [];
  environments = prod ∷ staging ∷ [];
  segments =
      record { tenant_id = js "t1"; key = staff.key; description = js ""; rule_tree = staff.when }
      ∷ record { tenant_id = js "t1"; key = beta.key; description = js ""; rule_tree = beta.when }
      ∷ [];
  flags = checkout_record ∷ [];
  configs = checkout_config ∷ [];
  api_keys = client_key ∷ [];
  audit_log = [];
  snapshots = [];
}

abbrev pub sample_site : Site
sample_site = record { database = sample_database; writer = none }
