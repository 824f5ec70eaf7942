-- ===== src/ControlPlane/Repository.antt =====
-- apps/control-plane/src/repository.ts: what its queries have in common. `WHERE` is a filter, and
-- `ORDER BY` a stable sort; the order of texts is the database's collation.
pub mod Reads
pub mod Writes
pub mod Publish
pub mod Rows
pub mod Newest
pub mod Audit
pub mod Authentication
pub mod Configuring
mod Examples
use flagship_platform.Shared.{
  ℕ, Bool, true, false, Option, none, some, List, [], ◌∷◌, if◌then◌else◌, any,
}
use flagship_platform.Js.Text.{JsString, str_eq}
use flagship_platform.Core.Types.{RulesetSnapshot}
use flagship_platform.ControlPlane.Keys.{Crypto}
use flagship_platform.ControlPlane.Database.{Database, Tenant, Environment}

-- What the code takes from Postgres and from Node: the order of texts, `JSON.stringify`, `String(n)`
-- and hashes.
pub record Engine : Type 0 where
  pub text_le : JsString → JsString → Bool
  pub stringify : RulesetSnapshot → JsString
  pub string_of : ℕ → JsString
  pub crypto : Crypto

module _ {A : Type 0} where
  unfoldable pub insert_by : (precedes : A → A → Bool) → A → List A → List A
  insert_by precedes a [] = a ∷ []
  insert_by precedes a (b ∷ bs) =
      let rest = insert_by precedes a bs in if precedes a b then a ∷ b ∷ bs else b ∷ rest

  -- ORDER BY
  unfoldable pub order_by : (precedes : A → A → Bool) → List A → List A
  unfolding insert_by
  order_by precedes [] = []
  order_by precedes (a ∷ as') = insert_by precedes a (order_by precedes as')

  -- The first row that passes a test.
  unfoldable pub find : (A → Bool) → List A → Option A
  find p [] = none
  find p (a ∷ as') = let rest = find p as' in if p a then some a else rest

  -- UPDATE … WHERE
  unfoldable pub update_where : (A → Bool) → (A → A) → List A → List A
  update_where p change [] = []
  update_where p change (a ∷ as') = (if p a then change a else a) ∷ update_where p change as'

-- The foreign keys to `tenants` and `environments`.
unfoldable pub has_tenant : Database → JsString → Bool
has_tenant db id = any (λ t. str_eq t.id id) db.tenants

unfoldable pub has_environment : Database → JsString → Bool
has_environment db id = any (λ e. str_eq e.id id) db.environments
