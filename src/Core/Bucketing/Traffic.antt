-- ===== src/Core/Bucketing/Traffic.antt =====
-- How a valid rollout divides the bucket space.
use flagship_platform.Shared.{
  ℕ, zero, suc, ◌+◌, ◌≤◌, ◌<◌, ◌≡◌, ◌≢◌, refl, ◌∙◌, true, Option, none, some, List, [], ◌∷◌, arith,
  ltb, if◌then◌else◌, Bool-cases, lt→ltb, ltb→lt, le→ltb_false, inl, inr, All,
}
use flagship_platform.Js.Text.{JsString, str_eq}
use flagship_platform.Js.Number.{Number, of_nat, num_add, num_lt}
use flagship_platform.Core.Types.{Distribution}
use flagship_platform.Core.Bucketing.{
  bucket_space, bucket_for, walk, variation_for_bucket, is_valid_distribution,
}
use flagship_platform.Core.Bucketing.Shares.{
  Shares, total, num_add-of_nat, num_lt-of_nat, shares, slice_at, valid-shares,
}

unfoldable pub serves : JsString → Option JsString → ℕ
serves k none = 0
serves k (some j) = if str_eq j k then 1 else 0

-- Of the `n` buckets from `start`, how many `choose` gives to `k`.
unfoldable pub hits : JsString → (choose : ℕ → Option JsString) → (start n : ℕ) → ℕ
hits k choose start zero = 0
hits k choose start (suc n) = serves k (choose start) + hits k choose (suc start) n

-- The sum of the shares of `k`.
unfoldable pub share_of : JsString → Shares → ℕ
share_of k [] = 0
share_of k ((j, w) ∷ ws) = (if str_eq j k then w else 0) + share_of k ws

hits-add :
    (k : JsString) (f : ℕ → Option JsString) (start m n : ℕ)
    → hits k f start (m + n) ≡ hits k f start m + hits k f (start + m) n
unfolding hits
hits-add k f start zero n =
    let a : 0 + n ≡ n = omega arith in
    let b : start + 0 ≡ start = omega arith in rw (a, b) (omega arith)
hits-add k f start (suc m) n =
    let a : suc m + n ≡ suc (m + n) = omega arith in
    let b : start + suc m ≡ suc start + m = omega arith in
    rw (a, b) (omega (arith, hits-add k f (suc start) m n))

hits-congr :
    (k : JsString) (f g : ℕ → Option JsString) (start n : ℕ)
    → ((b : ℕ) → start ≤ b → b < start + n → f b ≡ g b)
    → hits k f start n ≡ hits k g start n
unfolding hits
hits-congr k f g start zero h = refl
hits-congr k f g start (suc n) h =
    let here = h start (omega arith) (omega arith) in
    let later = hits-congr k f g (suc start) n (λ b p q. h b (omega arith) (omega arith)) in
    rw (here, later) refl

hits-constant :
    (k j : JsString) (start n : ℕ) → hits k (λ _. some j) start n ≡ (if str_eq j k then n else 0)
unfolding hits serves
hits-constant k j start zero = ground arith
hits-constant k j start (suc n) = ground (arith, hits-constant k j (suc start) n)

slice_at-hits :
    (k : JsString) (start : ℕ) (ws : Shares)
    → hits k (slice_at start ws) start (total ws) ≡ share_of k ws
unfolding slice_at share_of
slice_at-hits k start [] = unfold hits in refl
slice_at-hits k start ((j, w) ∷ ws) =
    let f = slice_at start ((j, w) ∷ ws) in
    let first =
      hits-congr k f (λ _. some j) start w (λ b p q. ground (arith, lt→ltb b (start + w) q)) in
    let second =
      hits-congr k f (slice_at (start + w) ws) (start + w) (total ws)
        (λ b p q. ground (arith, le→ltb_false b (start + w) p)) in
    omega (
      arith,
      hits-add k f start w (total ws),
      first,
      hits-constant k j start w,
      second,
      slice_at-hits k (start + w) ws,
    )

-- Under a valid rollout each variation is served to exactly as many of the 100000 buckets as its
-- weights say.
pub traffic_exact :
    (d : List Distribution) (k : JsString)
    → is_valid_distribution d ≡ true
    → hits k (variation_for_bucket d) 0 bucket_space ≡ share_of k (shares d)
traffic_exact d k h =
    let (full, same) = valid-shares d h in
    hits-congr k _ (slice_at 0 (shares d)) 0 bucket_space (λ b _ _. same b)
    ∙ (rw full at (slice_at-hits k 0 (shares d)))

slice_at-some :
    (start : ℕ) (ws : Shares) (b : ℕ)
    → start ≤ b
    → b < start + total ws
    → (k : JsString) × (slice_at start ws b ≡ some k)
unfolding slice_at
slice_at-some start [] b g h = absurd (omega arith)
slice_at-some start ((j, w) ∷ ws) b g h = elim (Bool-cases (ltb b (start + w))) [
  | inl now ↦ (j, rw now)
  | inr later ↦ rw later (slice_at-some (start + w) ws b (ground arith) (omega arith))
]

pub bucket_for-lt : (flag salt key : JsString) → bucket_for flag salt key < bucket_space
unfolding bucket_for
bucket_for-lt flag salt key = omega arith

-- A valid rollout places every bucket key: the bucket of a flag, a salt and any key falls in one of its
-- slices, and so has a variation. A context that has no bucket key is not meant.
pub rollout_total :
    (d : List Distribution) (flag salt key : JsString)
    → is_valid_distribution d ≡ true
    → (k : JsString) × (variation_for_bucket d (bucket_for flag salt key) ≡ some k)
rollout_total d flag salt key h =
    let (full, same) = valid-shares d h in
    let inside = bucket_for-lt flag salt key in
    let (k, found) =
      slice_at-some 0 (shares d) (bucket_for flag salt key) (omega arith) (omega arith) in
    (k, same (bucket_for flag salt key) ∙ found)

walk-All :
    (P : JsString → Type 0) (c : Number) (d : List Distribution) (b : ℕ) (k : JsString)
    → All (λ e. P e.variation_key) d
    → walk c d b ≡ some k
    → P k
unfolding walk
walk-All P c [] b k h e = cc
walk-All P c (x ∷ xs) b k (p, h) e =
    let c' = num_add c x.weight in
    elim (Bool-cases (num_lt (of_nat b) c')) [
      | inl now ↦ let same : x.variation_key ≡ k = ground arith in rw (← same) p
      | inr later ↦ walk-All P c' xs b k h (rw later at e)
    ]

-- What holds of every variation of a rollout holds of the one that it serves.
pub variation_for_bucket-All :
    (P : JsString → Type 0) (d : List Distribution) (b : ℕ) (k : JsString)
    → All (λ e. P e.variation_key) d
    → variation_for_bucket d b ≡ some k
    → P k
unfolding variation_for_bucket
variation_for_bucket-All P d b k h e = walk-All P (of_nat 0) d b k h e

first_slice :
    (k : JsString) (w : ℕ) (es : List Distribution) (b : ℕ)
    → variation_for_bucket (record { variation_key = k; weight = of_nat w } ∷ es) b
      ≡ (if ltb b w then some k else walk (of_nat w) es b)
unfolding variation_for_bucket walk
first_slice k w es b =
    let sum : 0 + w ≡ w = omega arith in rw (num_add-of_nat 0 w, sum, num_lt-of_nat b w) refl

-- Raising the share of the first variation of a rollout moves nobody out of it, whatever becomes of
-- the shares behind it, provided that the variation is not listed again behind its first entry.
pub rollout_additive :
    (k : JsString) (w w' : ℕ) (es es' : List Distribution) (b : ℕ)
    → w ≤ w'
    → All (λ e. e.variation_key ≢ k) es
    → variation_for_bucket (record { variation_key = k; weight = of_nat w } ∷ es) b ≡ some k
    → variation_for_bucket (record { variation_key = k; weight = of_nat w' } ∷ es') b ≡ some k
rollout_additive k w w' es es' b le others h = elim (Bool-cases (ltb b w)) [
  | inl inside ↦
      let still = lt→ltb b w' (omega (arith, ltb→lt b w inside)) in
      rw (first_slice k w' es' b, still) refl
  | inr outside ↦
      let later : walk (of_nat w) es b ≡ some k = rw (first_slice k w es b, outside) at h in
      absurd (walk-All (λ j. j ≢ k) (of_nat w) es b k others later refl)
]
