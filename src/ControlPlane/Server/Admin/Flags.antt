-- ===== src/ControlPlane/Server/Admin/Flags.antt =====
-- apps/control-plane/src/server.ts: the admin routes that read, create and change one flag.
use flagship_platform.Shared.{
  ℕ, Bool, true, false, not, ◌&&◌, ◌||◌, Option, none, some, List, [], ◌∷◌, ◌++◌, map,
  if◌then◌else◌, leb, ◌==◌,
}
use flagship_platform.Js.Text.{JsString, js}
use flagship_platform.Js.Set.{has}
use flagship_platform.Js.Value.{JsValue}
use flagship_platform.Core.Types.{Variation, TargetingRule}
use flagship_platform.ControlPlane.Ruleset.{set_of}
use flagship_platform.ControlPlane.Database.{
  created_flag, configured, unique_violation, Outcome, done, failed, Action, pure, throw, gets,
  attempt, ◌>>=◌, ◌>>◌,
}
use flagship_platform.ControlPlane.Repository.Reads.{FlagDetail, get_flag}
use flagship_platform.ControlPlane.Repository.Writes.{
  write_audit, CreateFlagInput, create_flag, UpdateFlagConfigInput, update_flag_config, given_or,
}
use flagship_platform.ControlPlane.Server.{
  Reply, reply, refuse, Settings, Supply, present, both, no_body, flag_body, created_flag_body,
}

-- /^[a-zA-Z0-9._-]+$/, tested on a string, which the route declares the key to be; that `test` converts
-- another value to text, while the value itself is stored, is left out.
unfoldable pub is_key_unit : ℕ → Bool
is_key_unit c =
    (leb b'a' c && leb c b'z')
    || ((leb b'A' c && leb c b'Z')
        || ((leb b'0' c && leb c b'9') || ((c == b'.') || ((c == b'_') || (c == b'-')))))

unfoldable pub are_key_units : JsString → Bool
are_key_units [] = true
are_key_units (c ∷ cs) = is_key_unit c && are_key_units cs

unfoldable pub is_key : JsString → Bool
is_key [] = false
is_key (c ∷ cs) = are_key_units (c ∷ cs)

abbrev pub on_and_off : List Variation
on_and_off =
    record { key = js "on"; value = JsValue.boolean true }
    ∷ record { key = js "off"; value = JsValue.boolean false }
    ∷ []

module _ (settings : Settings) (supply : Supply) where
  open supply use {now}

  abbrev pub flag_reply : Option FlagDetail → Reply
  flag_reply none = refuse 404 (js "flag not found")
  flag_reply (some flag) = reply 200 (flag_body flag)

  -- GET /v1/flags/:key
  unfoldable pub get_flag_route :
      (key : JsString) → (tenant_id environment_id : Option JsString) → Action Reply
  get_flag_route key tenant_id environment_id =
      elim (both (present tenant_id) (present environment_id)) [
        | none ↦ pure (refuse 400 (js "tenantId and environmentId are required"))
        | some (t, e) ↦ gets (λ db. flag_reply (get_flag db t e key))
      ]

  -- What follows the `try`.
  unfoldable pub after_create : CreateFlagInput → Outcome (Unit {0}) → Action Reply
  after_create input (failed unique_violation) =
      pure (refuse 409 (js "flag \"" ++ (input.key ++ js "\" already exists")))
  after_create input (failed e) = throw e
  after_create input (done _) = do
    write_audit now (record {
      tenant_id = input.tenant_id;
      environment_id = none;
      actor_id = js "admin";
      actor_email = js "admin";
      action = js "create";
      resource_type = js "flag";
      resource_key = input.key;
      previous_value = none;
      new_value =
          some (created_flag input.variations input.default_variation_key input.off_variation_key);
    })
    pure (reply 201 (created_flag_body input.key))

  unfoldable pub create_declared : CreateFlagInput → Action Reply
  create_declared input = do
    created ← attempt (create_flag now supply.id supply.salt input)
    after_create input created

  -- The keys that the flag falls back to are declared.
  unfoldable pub declares_fallbacks : CreateFlagInput → Bool
  declares_fallbacks input =
      let keys = set_of [] (map (λ v. v.key) input.variations) in
      has keys input.default_variation_key && has keys input.off_variation_key

  -- What follows the first check, on the fields with their defaults.
  unfoldable pub create_checked : CreateFlagInput → Action Reply
  create_checked input =
      if not (is_key input.key)
      then pure (refuse 400 (js "key may contain only letters, digits, . _ and -"))
      else if not (declares_fallbacks input)
      then pure
          (refuse 400 (js "defaultVariationKey and offVariationKey must be declared variations"))
      else create_declared input

  -- POST /v1/flags
  unfoldable pub post_flags :
      (tenant_id key description : Option JsString)
      → (variations : Option (List Variation)) → (default_key off_key : Option JsString)
      → Action Reply
  post_flags tenant_id key description variations default_key off_key =
      elim (both (present tenant_id) (present key)) [
        | none ↦ pure (refuse 400 (js "tenantId and key are required"))
        | some (t, k) ↦ create_checked (record {
          tenant_id = t;
          key = k;
          description = given_or description [];
          variations = given_or variations on_and_off;
          default_variation_key = given_or default_key (js "off");
          off_variation_key = given_or off_key (js "off");
        })
      ]

  -- reply.send(flag), which may be undefined
  abbrev pub sent_flag : Option FlagDetail → Reply
  sent_flag none = reply 200 no_body
  sent_flag (some flag) = reply 200 (flag_body flag)

  -- What follows the update.
  unfoldable pub after_update : UpdateFlagConfigInput → Option FlagDetail → Action Reply
  after_update input none = pure (refuse 404 (js "flag not found"))
  after_update input (some previous) = do
    write_audit now (record {
      tenant_id = input.tenant_id;
      environment_id = some input.environment_id;
      actor_id = js "admin";
      actor_email = js "admin";
      action = js "update";
      resource_type = js "flag";
      resource_key = input.key;
      previous_value = some (configured previous.enabled previous.rules);
      new_value = some (
          configured (given_or input.enabled previous.enabled)
            (given_or input.rules previous.rules));
    })
    flag ← gets (λ db. get_flag db input.tenant_id input.environment_id input.key)
    pure (sent_flag flag)

  unfoldable pub update_as : UpdateFlagConfigInput → Action Reply
  update_as input = do updated ← update_flag_config now input; after_update input updated

  -- PATCH /v1/flags/:key
  unfoldable pub patch_flag :
      (key : JsString)
      → (tenant_id environment_id : Option JsString) → (enabled : Option Bool)
      → (default_key off_key : Option JsString) → (rules : Option (List TargetingRule))
      → Action Reply
  patch_flag key tenant_id environment_id enabled default_key off_key rules =
      elim (both (present tenant_id) (present environment_id)) [
        | none ↦ pure (refuse 400 (js "tenantId and environmentId are required"))
        | some (t, e) ↦ update_as (record {
          tenant_id = t;
          environment_id = e;
          key = key;
          enabled = enabled;
          default_variation_key = default_key;
          off_variation_key = off_key;
          rules = rules;
        })
      ]
