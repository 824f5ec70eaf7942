-- ===== src/Core/Visibility/Fixpoint.antt =====
-- The `while` loop of `clientSafeSegments`: it ends, at a set that is closed both ways.
use flagship_platform.Shared.{
  ℕ, zero, suc, ◌≤◌, ◌<◌, ◌≡◌, ap, refl, Bool, true, false, not, ◌&&◌, ◌||◌, some, List, [], ◌∷◌,
  arith, if◌then◌else◌, length, In, Bool-cases, inl, inr, and-true,
}
use flagship_platform.Js.Text.{JsString, str_eq, str_eq_iff}
use flagship_platform.Js.Set.{JsSet, has, add, has-add}
use flagship_platform.Js.Map.{JsMap, get}
use flagship_platform.Js.Map.Counting.{
  remaining, remaining-le-length, remaining-add_le, remaining-add_lt,
}
use flagship_platform.Core.Types.{Segment}
use flagship_platform.Core.Visibility.{
  contains_server_only, referenced_segments, all_in, tree_is_safe, safe_round, safe_loop,
  client_safe_segments,
}

-- Every member of the one set is a member of the other.
abbrev pub Within : JsSet → JsSet → Type 0
Within s t = (k : JsString) → has s k ≡ true → has t k ≡ true

all_in-Within : (keys s t : JsSet) → Within s t → all_in keys s ≡ true → all_in keys t ≡ true
unfolding all_in
all_in-Within [] s t w h = refl
all_in-Within (k ∷ ks) s t w h =
    let (here, later) = and-true {a = has s k} h in
    ground (arith, w k here, all_in-Within ks s t w later)

tree_is_safe-Within :
    (s t : JsSet) (seg : Segment)
    → Within s t
    → tree_is_safe seg.when s ≡ true
    → tree_is_safe seg.when t ≡ true
unfolding tree_is_safe
tree_is_safe-Within s t seg w h =
    let (clean, inside) = and-true {a = not (contains_server_only seg.when)} h in
    ground (arith, all_in-Within (referenced_segments seg.when []) s t w inside)

-- The set after the test of one segment.
step_set : Segment → JsSet → JsSet
step_set s safe = if not (has safe s.key) && tree_is_safe s.when safe then add safe s.key else safe

step_set-Within : (s : Segment) (safe : JsSet) → Within safe (step_set s safe)
unfolding step_set
step_set-Within s safe k h = ground (arith, has-add safe s.key k)

safe_round-Within :
    (ss : List Segment) (safe : JsSet) (c : Bool) → Within safe (safe_round ss safe c).0
unfolding safe_round step_set
safe_round-Within [] safe c k h = h
safe_round-Within (s ∷ ss) safe c k h =
    safe_round-Within ss (step_set s safe) _ k (step_set-Within s safe k h)

entries : List Segment → JsMap Segment
entries [] = []
entries (s ∷ ss) = (s.key, s) ∷ entries ss

get-entries :
    (ss : List Segment) (s : Segment) → In s ss → (t : Segment) × (get (entries ss) s.key ≡ some t)
unfolding get entries
get-entries [] s m = absurd m
get-entries (x ∷ xs) s (inl e) = (x, ground (arith, e, str_eq_iff x.key s.key))
get-entries (x ∷ xs) s (inr m) = elim (Bool-cases (str_eq x.key s.key)) [
  | inl same ↦ (x, rw same refl)
  | inr other ↦ let (t, found) = get-entries xs s m in (t, rw other found)
]

module _ (all : List Segment) where
  open_count : JsSet → ℕ
  open_count safe = remaining (entries all) safe

  step_set-fewer :
      (s : Segment) (safe : JsSet)
      → In s all
      → (not (has safe s.key) && tree_is_safe s.when safe) ≡ true
      → open_count (step_set s safe) < open_count safe
  unfolding step_set open_count
  step_set-fewer s safe m h =
      let (t, found) = get-entries all s m in
      let (new, safe_tree) = and-true {a = not (has safe s.key)} h in
      let gone : has safe s.key ≡ false = ground arith in
      rw h (remaining-add_lt (entries all) safe s.key t found gone)

  step_set-le : (s : Segment) (safe : JsSet) → open_count (step_set s safe) ≤ open_count safe
  unfolding step_set open_count
  step_set-le s safe = ground (arith, remaining-add_le (entries all) safe s.key)

  safe_round-le :
      (ss : List Segment) (safe : JsSet) (c : Bool)
      → open_count (safe_round ss safe c).0 ≤ open_count safe
  unfolding safe_round step_set
  safe_round-le [] safe c = omega arith
  safe_round-le (s ∷ ss) safe c =
      omega (arith, step_set-le s safe, safe_round-le ss (step_set s safe) _)

  -- A round that reports a change has made at least one more segment safe.
  safe_round-fewer :
      (ss : List Segment) (safe : JsSet)
      → ((s : Segment) → In s ss → In s all)
      → (safe_round ss safe false).1 ≡ true
      → open_count (safe_round ss safe false).0 < open_count safe
  unfolding safe_round step_set
  safe_round-fewer [] safe sub h = cc
  safe_round-fewer (s ∷ ss) safe sub h =
      let grows = not (has safe s.key) && tree_is_safe s.when safe in
      elim (Bool-cases grows) [
        | inl grown ↦ omega (
          arith,
          step_set-fewer s safe (sub s (inl refl)) grown,
          safe_round-le ss (step_set s safe) (grows || false),
        )
        | inr still ↦
            rw (still, safe_round)
              (safe_round-fewer ss safe (λ x m. sub x (inr m)) (rw (still, safe_round) at h))
      ]

safe_round-changed : (ss : List Segment) (safe : JsSet) → (safe_round ss safe true).1 ≡ true
unfolding safe_round
safe_round-changed [] safe = refl
safe_round-changed (s ∷ ss) safe =
    let grows = not (has safe s.key) && tree_is_safe s.when safe in
    elim (Bool-cases grows) [
      | inl grown ↦ rw (grown, safe_round) (safe_round-changed ss (add safe s.key))
      | inr still ↦ rw (still, safe_round) (safe_round-changed ss safe)
    ]

closed_cons :
    (s : Segment) (ss : List Segment) (safe : JsSet)
    → (not (has safe s.key) && tree_is_safe s.when safe) ≡ false
    → ((t : Segment) → In t ss → tree_is_safe t.when safe ≡ true → has safe t.key ≡ true)
    → (t : Segment) → In t (s ∷ ss)
    → tree_is_safe t.when safe ≡ true
    → has safe t.key ≡ true
closed_cons s ss safe still rest t (inl e) h =
    let here : tree_is_safe s.when safe ≡ true = rw (← e) h in rw e (ground arith)
closed_cons s ss safe still rest t (inr m) h = rest t m h

-- A round that reports no change has left the set alone, and no further segment is safe.
safe_round-unchanged :
    (ss : List Segment) (safe : JsSet)
    → (safe_round ss safe false).1 ≡ false
    → ((safe_round ss safe false).0 ≡ safe)
      × ((s : Segment) → In s ss → tree_is_safe s.when safe ≡ true → has safe s.key ≡ true)
unfolding safe_round
safe_round-unchanged [] safe h = (refl, λ s m t. absurd m)
safe_round-unchanged (s ∷ ss) safe h =
    let grows = not (has safe s.key) && tree_is_safe s.when safe in
    elim (Bool-cases grows) [
      | inl grown ↦
          let late = safe_round-changed ss (add safe s.key) in
          let early : (safe_round ss (add safe s.key) true).1 ≡ false =
            rw (grown, safe_round) at h in
          absurd (cc (late, early))
      | inr still ↦
          let (same, closed) = safe_round-unchanged ss safe (rw (still, safe_round) at h) in
          (rw (still, safe_round) same, closed_cons s ss safe still closed)
    ]

module _ (all : List Segment) where
  -- Closed: a segment whose tree is safe under the set is in the set.
  abbrev pub IsClosed : JsSet → Type 0
  IsClosed u = (s : Segment) → In s all → tree_is_safe s.when u ≡ true → has u s.key ≡ true

  -- The set that is wanted: each member is the key of a segment whose tree is safe under the set,
  -- it is closed, and it is within every closed set.
  pub record IsLeastSafe (safe : JsSet) : Type 0 where
    pub grounded :
        (k : JsString)
        → has safe k ≡ true
        → (s : Segment) × In s all × (s.key ≡ k) × (tree_is_safe s.when safe ≡ true)
    pub closed : IsClosed safe
    pub least : (u : JsSet) → IsClosed u → Within safe u

  -- What each round keeps.
  record IsSound (safe : JsSet) : Type 0 where
    grounded :
        (k : JsString)
        → has safe k ≡ true
        → (s : Segment) × In s all × (s.key ≡ k) × (tree_is_safe s.when safe ≡ true)
    least : (u : JsSet) → IsClosed u → Within safe u

  add-grounded :
      (s : Segment) (safe : JsSet) (k : JsString)
      → In s all
      → IsSound safe
      → tree_is_safe s.when safe ≡ true
      → has (add safe s.key) k ≡ true
      → (t : Segment) × In t all × (t.key ≡ k) × (tree_is_safe t.when (add safe s.key) ≡ true)
  add-grounded s safe k m h safe_tree e =
      let grow : Within safe (add safe s.key) = λ j p. ground (arith, has-add safe s.key j, p) in
      elim (Bool-cases (str_eq s.key k)) [
        | inl same ↦ (
          s,
          m,
          (str_eq_iff s.key k).0 same,
          tree_is_safe-Within safe (add safe s.key) s grow safe_tree,
        )
        | inr other ↦
            let old : has safe k ≡ true = ground (arith, has-add safe s.key k) in
            let (t, n, named, clean) = h.grounded k old in
            (t, n, named, tree_is_safe-Within safe (add safe s.key) t grow clean)
      ]

  add-least :
      (s : Segment) (safe u : JsSet)
      → In s all
      → IsSound safe
      → tree_is_safe s.when safe ≡ true
      → IsClosed u
      → Within (add safe s.key) u
  add-least s safe u m h safe_tree closed k e =
      let inside = h.least u closed in
      let reached = closed s m (tree_is_safe-Within safe u s inside safe_tree) in
      ground (arith, has-add safe s.key k, inside k, str_eq_iff s.key k)

  step_set-IsSound :
      (s : Segment) (safe : JsSet) → In s all → IsSound safe → IsSound (step_set s safe)
  step_set-IsSound s safe m h =
      elim (Bool-cases (not (has safe s.key) && tree_is_safe s.when safe)) [
        | inr still ↦ unfold step_set in rw still h
        | inl grown ↦
            let safe_tree = (and-true {a = not (has safe s.key)} grown).1 in
            unfold step_set in
            rw grown (record {
              grounded = λ k. add-grounded s safe k m h safe_tree;
              least = λ u. add-least s safe u m h safe_tree;
            })
      ]

  safe_round-IsSound :
      (ss : List Segment) (safe : JsSet) (c : Bool)
      → ((s : Segment) → In s ss → In s all)
      → IsSound safe
      → IsSound (safe_round ss safe c).0
  unfolding safe_round step_set
  safe_round-IsSound [] safe c sub h = h
  safe_round-IsSound (s ∷ ss) safe c sub h =
      safe_round-IsSound ss (step_set s safe) _ (λ x m. sub x (inr m))
        (step_set-IsSound s safe (sub s (inl refl)) h)

  safe_loop-IsLeastSafe :
      (fuel : ℕ) (safe : JsSet)
      → open_count all safe < fuel
      → IsSound safe
      → (t : JsSet) × (safe_loop fuel all safe ≡ some t) × IsLeastSafe t
  unfolding safe_loop
  safe_loop-IsLeastSafe zero safe h sound = absurd (omega arith)
  safe_loop-IsLeastSafe (suc fuel) safe h sound = elim (Bool-cases (safe_round all safe false).1) [
    | inl changed ↦
        let fewer = safe_round-fewer all all safe (λ s m. m) changed in
        let (t, found, good) =
          safe_loop-IsLeastSafe fuel (safe_round all safe false).0 (omega arith)
            (safe_round-IsSound all safe false (λ s m. m) sound) in
        (t, rw (changed, safe_loop) found, good)
    | inr done ↦
        let (same, closed) = safe_round-unchanged all safe done in
        (
          safe,
          rw (done, safe_loop, same) refl,
          record { grounded = sound.grounded; closed = closed; least = sound.least },
        )
  ]

  length-entries : (ss : List Segment) → length (entries ss) ≡ length ss
  unfolding entries
  length-entries [] = refl
  length-entries (s ∷ ss) = ap suc (length-entries ss)

  -- The loop of `clientSafeSegments` ends, at the least set of segment keys that is closed under "the tree has no
  -- server-only node and references only members".
  pub client_safe_segments-IsLeastSafe :
      (safe : JsSet) × (client_safe_segments all ≡ some safe) × IsLeastSafe safe
  unfolding client_safe_segments
  client_safe_segments-IsLeastSafe =
      safe_loop-IsLeastSafe (suc (length all)) []
        (unfold open_count in
          omega (arith, remaining-le-length (entries all) [], length-entries all))
        (record { grounded = λ k h. unfold has in cc; least = λ u closed k h. unfold has in cc })
