-- ===== src/Core/Bucketing.antt =====
-- packages/core/src/bucketing.ts: the bucket of a context, and the variation that a rollout gives it.
pub mod Examples
pub mod Input
pub mod Shares
pub mod Traffic
use flagship_platform.Shared.{
  ℕ, ◌%◌, Bool, true, false, not, ◌||◌, Option, none, some, List, [], ◌∷◌, ◌++◌, if◌then◌else◌,
}
use flagship_platform.Js.Text.{JsString, js}
use flagship_platform.Js.Number.{Number, of_nat, num_eq, num_lt, num_add, is_integer}
use flagship_platform.Core.Types.{Distribution}
use flagship_platform.Core.Murmur.{zeros, murmur_hash3_x86_32_string}

abbrev pub bucket_space : ℕ
bucket_space = 100000

abbrev pub bucket_separator : JsString
bucket_separator = js ":"

unfoldable pub bucketing_input : (flag_key salt bucket_key : JsString) → JsString
bucketing_input flag_key salt bucket_key =
    flag_key ++ (bucket_separator ++ (salt ++ (bucket_separator ++ bucket_key)))

-- The buffer `scratch` as it is first allocated.
unfoldable pub initial_scratch : List ℕ
unfolding zeros
initial_scratch = zeros 512

-- Every call starts from the first buffer here: what the buffer holds does not change the hash
-- (Murmur/Streaming).
unfoldable pub bucket_for : (flag_key salt bucket_key : JsString) → ℕ
bucket_for flag_key salt bucket_key =
    (murmur_hash3_x86_32_string initial_scratch (bucketing_input flag_key salt bucket_key) 0).0
    % bucket_space

-- The loop of `variationForBucket`.
unfoldable pub walk : (cumulative : Number) → List Distribution → (bucket : ℕ) → Option JsString
walk cumulative [] bucket = none
walk cumulative (entry ∷ entries) bucket =
    let cumulative' = num_add cumulative entry.weight in
    let rest = walk cumulative' entries bucket in
    if num_lt (of_nat bucket) cumulative' then some entry.variation_key else rest

unfoldable pub variation_for_bucket : List Distribution → (bucket : ℕ) → Option JsString
variation_for_bucket distribution bucket = walk (of_nat 0) distribution bucket

-- The loop of `isValidDistribution`: `none` is its early `return false`.
unfoldable pub total_weight : (total : Number) → List Distribution → Option Number
total_weight total [] = some total
total_weight total (entry ∷ entries) =
    let rest = total_weight (num_add total entry.weight) entries in
    if not (is_integer entry.weight) || num_lt entry.weight (of_nat 0) then none else rest

unfoldable pub is_valid_distribution : List Distribution → Bool
is_valid_distribution [] = false
is_valid_distribution distribution = elim (total_weight (of_nat 0) distribution) [
  | none ↦ false
  | some total ↦ num_eq total (of_nat bucket_space)
]
