-- ===== src/ControlPlane/Database/Effects.antt =====
-- What code does to the database, as a relation between the database before and after it.
use flagship_platform.Shared.{◌≡◌, refl, Bool, true, false, if◌then◌else◌}
use flagship_platform.ControlPlane.Database.{
  Database, Failure, Outcome, done, failed, Action, pure, throw, gets, continue, ◌>>=◌, attempt,
  commit, with_transaction,
}

pub record IsPreorder (R : Database → Database → Type 0) : Type 0 where
  pub same : (db : Database) → R db db
  pub trans : {a b c : Database} → R a b → R b c → R a c

-- Whatever the code returns or throws, the databases before and after it are related.
pub record Within {A : Type 0} (R : Database → Database → Type 0) (m : Action A) : Type 0 where
  pub related : (db : Database) → R db (m db).1

module _ {R : Database → Database → Type 0} (preorder : IsPreorder R) {A : Type 0} where
  pub pure-Within : (a : A) → Within R (pure a)
  pure-Within a = record { related = λ db. preorder.same db }

  pub throw-Within : (e : Failure) → Within R (throw {A = A} e)
  throw-Within e = record { related = λ db. preorder.same db }

  pub gets-Within : (f : Database → A) → Within R (gets f)
  gets-Within f = record { related = λ db. preorder.same db }

  continue-Within :
      {B : Type 0} (r : Outcome A) (f : A → Action B)
      → ((a : A) → Within R (f a))
      → (db : Database) → R db (continue r f db).1
  continue-Within (done a) f h db = (h a).related db
  continue-Within (failed e) f h db = preorder.same db

  pub bind-Within :
      {B : Type 0} (m : Action A) (f : A → Action B)
      → Within R m
      → ((a : A) → Within R (f a))
      → Within R (m >>= f)
  bind-Within m f first rest = record {
    related = λ db. preorder.trans (first.related db) (continue-Within (m db).0 f rest (m db).1);
  }

  commit-related :
      (before : Database) (result : Outcome A × Database)
      → R before result.1
      → R before (commit before result).1
  commit-related before (done a, after) h = h
  commit-related before (failed e, after) h = preorder.same before

  pub with_transaction-Within : (m : Action A) → Within R m → Within R (with_transaction m)
  unfolding with_transaction
  with_transaction-Within m h = record { related = λ db. commit-related db (m db) (h.related db) }

  pub attempt-Within : (m : Action A) → Within R m → Within R (attempt m)
  attempt-Within m h = record { related = h.related }

  pub if-Within :
      (test : Bool) (m n : Action A)
      → (test ≡ true → Within R m)
      → (test ≡ false → Within R n)
      → Within R (if test then m else n)
  if-Within true m n h k = h refl
  if-Within false m n h k = k refl

  -- A statement that changes the table or throws.
  pub guarded-related :
      (test : Bool) (r s : Outcome A) (before after : Database)
      → R before after
      → let result : Outcome A × Database = if test then (r, after) else (s, before) in
        R before result.1
  guarded-related true r s before after h = h
  guarded-related false r s before after h = preorder.same before
