-- ===== src/Core/Bucketing/Examples.antt =====
-- The bucketing theorems at concrete rollouts and keys.
use flagship_platform.Shared.{ℕ, ◌≡◌, ◌≢◌, refl, true, some, List, [], ◌∷◌, arith}
use flagship_platform.Js.Text.{JsString, js}
use flagship_platform.Js.Number.{unit, of_nat, num_eq, num_lt, num_add, is_integer}
use flagship_platform.Core.Types.{Distribution}
use flagship_platform.Core.Samples.{half}
use flagship_platform.Core.Bucketing.{
  bucket_space, bucket_for, is_valid_distribution, total_weight, variation_for_bucket, walk,
}
use flagship_platform.Core.Bucketing.Input.{bucketing_input-injective}
use flagship_platform.Core.Bucketing.Shares.{shares, total, slice_at, valid-shares}
use flagship_platform.Core.Bucketing.Traffic.{
  hits, share_of, traffic_exact, rollout_total, rollout_additive,
}

pub half-valid : is_valid_distribution half ≡ true
unfolding is_valid_distribution total_weight of_nat num_eq num_lt num_add is_integer
half-valid = refl

bucketing_input_example : (js "f" ≡ js "f") × (js "s" ≡ js "s") × (js "a:b" ≡ js "a:b")
bucketing_input_example =
    bucketing_input-injective (js "f") (js "s") (js "a:b") (js "f") (js "s") (js "a:b")
      (omega arith) (omega arith) (omega arith) (omega arith) refl

valid-shares_example :
    (total (shares half) ≡ bucket_space)
    × ((b : ℕ) → variation_for_bucket half b ≡ slice_at 0 (shares half) b)
valid-shares_example = valid-shares half half-valid

traffic_exact_example :
    hits (js "on") (variation_for_bucket half) 0 bucket_space ≡ share_of (js "on") (shares half)
traffic_exact_example = traffic_exact half (js "on") half-valid

rollout_total_example :
    (k : JsString) × (variation_for_bucket half (bucket_for (js "f") (js "s") (js "u1")) ≡ some k)
rollout_total_example = rollout_total half (js "f") (js "s") (js "u1") half-valid

others : List Distribution
others = record { variation_key = js "off"; weight = of_nat 60000 } ∷ []

first_slice_on :
    variation_for_bucket (record { variation_key = js "on"; weight = of_nat 40000 } ∷ others) 12345
    ≡ some (js "on")
unfolding variation_for_bucket walk num_lt num_add of_nat unit others
first_slice_on = refl

on_is_not_off : js "off" ≢ js "on"
on_is_not_off e = cc

rollout_additive_example :
    variation_for_bucket (record { variation_key = js "on"; weight = of_nat 70000 } ∷ []) 12345
    ≡ some (js "on")
unfolding others
rollout_additive_example =
    rollout_additive (js "on") 40000 70000 others [] 12345 (omega arith) (on_is_not_off, tt)
      first_slice_on
