-- ===== src/Core/Bucketing/Shares.antt =====
-- A valid distribution as a list of natural shares, and what the walk over it returns.
use flagship_platform.Shared.{
  ℕ, ◌+◌, ◌*◌, ◌/◌, ◌<◌, ◌≤◌, ◌≡◌, refl, ap, ◌∙◌, true, false, Option, none, some, List, [], ◌∷◌,
  arith, ltb, if◌then◌else◌, All, Bool-cases, inl, inr, lt→ltb, ltb→lt, le→ltb_false, Option-cases,
}
use flagship_platform.Shared.Int.{pos, negsuc, ◌+ℤ◌}
use flagship_platform.Js.Text.{JsString}
use flagship_platform.Js.Number.{
  Number, nan, infinity, neg_infinity, finite, unit, of_nat, num_eq, num_lt, num_add, is_integer,
}
use flagship_platform.Core.Types.{Distribution}
use flagship_platform.Core.Bucketing.{
  bucket_space, walk, variation_for_bucket, total_weight, is_valid_distribution,
}

abbrev pub Shares : Type 0
Shares = List (JsString × ℕ)

abbrev pub total : Shares → ℕ
total [] = 0
total ((k, w) ∷ ws) = w + total ws

-- The number of units in a whole weight.
natural : Number → ℕ
natural (finite (pos z)) = z / unit
natural _ = 0

unfoldable pub shares : List Distribution → Shares
unfolding natural
shares [] = []
shares (e ∷ es) = (e.variation_key, natural e.weight) ∷ shares es

-- The slice that holds `bucket`, where the slices begin at `start`.
unfoldable pub slice_at : (start : ℕ) → Shares → (bucket : ℕ) → Option JsString
slice_at start [] bucket = none
slice_at start ((k, w) ∷ ws) bucket =
    if ltb bucket (start + w) then some k else slice_at (start + w) ws bucket

unit_pos : 0 < unit
unfolding unit
unit_pos = omega arith

-- Scaling by the unit keeps order.
scaled_lt : (u a b : ℕ) → a < b → a * u + u ≤ b * u
scaled_lt u a b h = grind arith

scaled_le : (u a b : ℕ) → a ≤ b → a * u ≤ b * u
scaled_le u a b h = grind arith

scaled-ltb : (u a b : ℕ) → 0 < u → ltb (a * u) (b * u) ≡ ltb a b
scaled-ltb u a b h = elim (Bool-cases (ltb a b)) [
  | inl e ↦ rw e (lt→ltb _ _ (omega (arith, scaled_lt u a b (ltb→lt a b e))))
  | inr e ↦ rw e (le→ltb_false _ _ (scaled_le u b a (ground arith)))
]

scaled-injective : (u a b : ℕ) → 0 < u → a * u ≡ b * u → a ≡ b
scaled-injective u a b h e = elim (Bool-cases (ltb a b)) [
  | inl p ↦ absurd (omega (arith, scaled_lt u a b (ltb→lt a b p)))
  | inr p ↦ elim (Bool-cases (ltb b a)) [
    | inl q ↦ absurd (omega (arith, scaled_lt u b a (ltb→lt b a q)))
    | inr q ↦ ground arith
  ]
]

pub num_lt-of_nat : (a b : ℕ) → num_lt (of_nat a) (of_nat b) ≡ ltb a b
unfolding num_lt of_nat
num_lt-of_nat a b = ground (arith, scaled-ltb unit a b unit_pos)

pub num_add-of_nat : (a b : ℕ) → num_add (of_nat a) (of_nat b) ≡ of_nat (a + b)
unfolding num_add of_nat ◌+ℤ◌
num_add-of_nat a b = ground arith

of_nat-injective : (a b : ℕ) → num_eq (of_nat a) (of_nat b) ≡ true → a ≡ b
unfolding num_eq of_nat
of_nat-injective a b h = scaled-injective unit a b unit_pos (ground arith)

-- A weight that passes the guard is a natural number.
of_nat-natural :
    (w : Number) → is_integer w ≡ true → num_lt w (of_nat 0) ≡ false → w ≡ of_nat (natural w)
unfolding is_integer num_lt of_nat natural
of_nat-natural (finite (pos z)) h k = ground arith
of_nat-natural (finite (negsuc z)) h k = ground arith
of_nat-natural nan h k = cc
of_nat-natural infinity h k = cc
of_nat-natural neg_infinity h k = cc

num_add-natural :
    (t : ℕ) (w : Number) → w ≡ of_nat (natural w) → num_add (of_nat t) w ≡ of_nat (t + natural w)
num_add-natural t w h = ap (num_add (of_nat t)) h ∙ num_add-of_nat t (natural w)

abbrev IsWeighed : List Distribution → Type 0
IsWeighed d = All (λ e. e.weight ≡ of_nat (natural e.weight)) d

-- When the loop of `isValidDistribution` finishes, the total is that of the shares.
total_weight-shares :
    (t : ℕ) (d : List Distribution) (r : Number)
    → total_weight (of_nat t) d ≡ some r
    → (r ≡ of_nat (t + total (shares d))) × IsWeighed d
unfolding total_weight shares
total_weight-shares t [] r h = let e : t + 0 ≡ t = omega arith in (rw e (ground arith), tt)
total_weight-shares t (e ∷ es) r h =
    let w = natural e.weight in
    let whole : e.weight ≡ of_nat w = of_nat-natural e.weight (ground arith) (ground arith) in
    let sum : num_add (of_nat t) e.weight ≡ of_nat (t + w) = num_add-natural t e.weight whole in
    let later : total_weight (of_nat (t + w)) es ≡ some r = rw (← sum) (ground arith) in
    let (last, all) = total_weight-shares (t + w) es r later in
    let regroup : t + (w + total (shares es)) ≡ t + w + total (shares es) = omega arith in
    (rw regroup last, (whole, all))

walk-slice_at :
    (c : ℕ) (d : List Distribution) (b : ℕ)
    → IsWeighed d
    → walk (of_nat c) d b ≡ slice_at c (shares d) b
unfolding walk slice_at shares
walk-slice_at c [] b h = refl
walk-slice_at c (e ∷ es) b (whole, h) =
    let w = natural e.weight in
    let sum : num_add (of_nat c) e.weight ≡ of_nat (c + w) = num_add-natural c e.weight whole in
    rw (sum, num_lt-of_nat b (c + w), walk-slice_at (c + w) es b h) refl

-- A valid distribution has natural shares that sum to the bucket space, and the walk over it is
-- the walk over its shares.
pub valid-shares :
    (d : List Distribution)
    → is_valid_distribution d ≡ true
    → (total (shares d) ≡ bucket_space)
      × ((b : ℕ) → variation_for_bucket d b ≡ slice_at 0 (shares d) b)
unfolding is_valid_distribution variation_for_bucket
valid-shares [] h = cc
valid-shares (e ∷ es) h = elim (Option-cases (total_weight (of_nat 0) (e ∷ es))) [
  | inl missing ↦ absurd (ground arith)
  | inr (r, found) ↦
      let (last, all) = total_weight-shares 0 (e ∷ es) r found in
      let same : num_eq r (of_nat bucket_space) ≡ true = ground arith in
      let full = of_nat-injective (0 + total (shares (e ∷ es))) bucket_space (rw last at same) in
      (omega (arith, full), λ b. walk-slice_at 0 (e ∷ es) b all)
]
