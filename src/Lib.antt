-- ===== src/Lib.antt =====
-- Flagship: a feature-flag platform. A control plane publishes rulesets, a data plane streams them,
-- and SDKs evaluate flags in process against the last ruleset they received.
--
-- The parts, and where they stand in the repository:
--   Shared      names, lists, options and integers that all modules use; no source of its own.
--   Js          what the source takes from JavaScript: strings of UTF-16 code units, `Set`, `Map`,
--               numbers, values of type `unknown`, and two interfaces: `Host`, for `new RegExp` and
--               `String(n)`, and `Doubles`, for arithmetic that rounds.
--   Core        packages/core/src. Types is types.ts; Murmur and Utf8 are murmur.ts; Bucketing is
--               bucketing.ts; Operators is operators.ts; Evaluate is evaluate.ts (Evaluate.antt the
--               index and `matchNode`, Evaluate/Flags the rest); Visibility is visibility.ts.
--   ControlPlane apps/control-plane/src. Ruleset is ruleset.ts; Batch and Writer are
--               exposures.ts (`validateBatch` and `ExposureWriter`); Keys is keys.ts; Database is the
--               schema of migrations/001_initial.sql and `withTransaction` of db.ts, and Migrations is
--               `migrate`; Repository is
--               repository.ts (Reads the queries, Writes the statements, Publish `publishRuleset`);
--               Server is server.ts (Sdk and Admin the routes, Routes the server with all of them).
--   Sdk         packages/sdk-js/src. Client is client.ts, Exposure is exposure.ts.
--   Console     apps/console/src. Stream is hooks/useRulesetStream.ts.
-- A definition bears the name of its source in snake case (`evaluateFlag` is `evaluate_flag`,
-- `#apply` is `apply`); a loop of the source is a function named for what it finds. The modules
-- named Examples hold tests and concrete instances of the theorems, over the ruleset of
-- Core/Samples.
--
-- How the parts interact: the client applies snapshots through `index_snapshot` and calls
-- `evaluate_flag`; this calls `match_node`, which calls `apply_operator`, and `bucket_for`, which
-- hashes with `murmur_hash3_x86_32_string`; `filter_snapshot_for_key` makes the snapshot that
-- browsers receive. A route of the server calls the repository, whose `publish_ruleset` calls
-- `compile_ruleset`; the exposure route calls `validate_batch` and the writer's `enqueue`.
--
-- State: the client is a record that each call returns anew; a guard set (`seen`) is passed
-- in and out, and is given back as `finally` leaves it; the buffer of the hash and the cache
-- of patterns are passed in and out. A callback of the client's host is a parameter that
-- returns or throws, a call of it is an entry in a list, and code that may throw is a `Run`,
-- which `try` and `catch` act on. A promise that is waited for is a field of the buffer, and
-- its settling is a step of its own, so every interleaving is a sequence of steps. The
-- database is a record of tables, a table a list of rows in the order of insertion, and code
-- over it returns or throws together with the database that it leaves (`Action`). A request
-- is one step of `Reach`; two requests whose statements interleave are not modelled. The
-- update of a key's last use, which the code does not wait for, is immediate.
--
-- Bounds and fuel: hash words are numbers below 2 ^ 32 with the wrap-around written out.
-- Matching takes one unit of fuel for each segment that it enters, and evaluation one for
-- each flag; both start with one more than there are entries, and no chain can enter an entry
-- twice. The loop of `client_safe_segments` starts with one round more than there are
-- segments, and each round but the last adds a key. The search for prerequisite cycles takes
-- one unit for each flag on its path and starts with one more than there are flags. After the
-- events that happen while `drain` waits, it takes at most two more for each write that is
-- left, which settles and may end a wave, and one besides.
--
-- Finite numbers are whole multiples of 2 ^ -1074, which every finite double is; addition is exact,
-- as it is in the source for whole numbers below 2 ^ 53. The numbers of a version are exact too.
-- Attributes are the own properties of their object.
--
-- Of the database: ids are texts, and a malformed UUID, which Postgres refuses, is a text that no row
-- has; JSON columns hold values of the types that the code casts them to; a nullable time of which
-- only the presence is asked is a Boolean; a missing reference and a taken key are the failures that
-- statements have, and lost connections are left out. The collation of texts, `JSON.stringify`, the
-- hash, ids, salts and the time are parameters.
--
-- Of requests: the parts of a body have the types that the route declares for them, except
-- for the events of exposures, which are any values. No schema enforces those types; in
-- particular the key of a new flag is a string, although the test of its characters lets some
-- other values pass.
--
-- Not modelled: the statistics of packages/core/src/stats, whose correctness is approximation
-- error; the queries for ClickHouse of apps/control-plane; the parsing of requests and the
-- printing of replies; the rendering of apps/console; the data plane and the SDKs in other
-- languages.
pub mod Shared
pub mod Js
pub mod Core
pub mod ControlPlane
pub mod Sdk
pub mod Console
