-- ===== src/ControlPlane/Repository/Rows.antt =====
-- What inserting a row or updating rows leaves of a table under a filter.
use flagship_platform.Shared.{
  ◌≡◌, refl, arith, ap, Bool, true, false, List, [], ◌∷◌, ◌++◌, if◌then◌else◌, filter, Bool-cases,
  any, subst, some, none, sym, ◌∙◌, inl, inr, ◌⊎◌, In,
}
use flagship_platform.ControlPlane.Repository.{update_where, find}

module _ {A : Type 0} (p : A → Bool) where
  pub filter-append : (xs ys : List A) → filter p (xs ++ ys) ≡ filter p xs ++ filter p ys
  unfolding filter
  filter-append [] ys = refl
  filter-append (x ∷ xs) ys = elim (Bool-cases (p x)) [
    | inl kept ↦ rw (kept, filter-append xs ys) refl
    | inr dropped ↦ rw (dropped, filter-append xs ys) refl
  ]

  pub filter-insert_other :
      (xs : List A) (x : A) → p x ≡ false → filter p (xs ++ x ∷ []) ≡ filter p xs
  unfolding filter
  filter-insert_other [] x h = rw h refl
  filter-insert_other (y ∷ xs) x h = rw (filter-insert_other xs x h) refl

  -- Rows outside the filter may change, as long as they stay outside.
  pub filter-update_others :
      (q : A → Bool) (change : A → A) (xs : List A)
      → ((x : A) → q x ≡ true → (p x ≡ false) × (p (change x) ≡ false))
      → filter p (update_where q change xs) ≡ filter p xs
  unfolding filter update_where
  filter-update_others q change [] h = refl
  filter-update_others q change (x ∷ xs) h = elim (Bool-cases (q x)) [
    | inl hit ↦
        let (before, after) = h x hit in
        rw (hit, before, after) (filter-update_others q change xs h)
    | inr miss ↦ rw (miss, filter-update_others q change xs h) refl
  ]

module _ {A : Type 0} (q : A → Bool) (change : A → A) where
  -- A row is there still, or what it was changed to.
  pub In-update_where :
      (a : A) (xs : List A) → In a xs → In (if q a then change a else a) (update_where q change xs)
  unfolding update_where
  In-update_where a [] m = absurd m
  In-update_where a (x ∷ xs) (inl same) = inl (ap (λ b. if q b then change b else b) same)
  In-update_where a (x ∷ xs) (inr m) = inr (In-update_where a xs m)

module _ {A : Type 0} (q : A → Bool) (change : A → A) where
  -- Each row after an update is one before it, or what that was changed to.
  pub update_where-In :
      (a : A) (xs : List A)
      → In a (update_where q change xs)
      → (x : A) × In x xs × (a ≡ (if q x then change x else x))
  unfolding update_where
  update_where-In a [] m = absurd m
  update_where-In a (x ∷ xs) (inl same) = (x, inl refl, same)
  update_where-In a (x ∷ xs) (inr m) =
      let (y, there, same) = update_where-In a xs m in (y, inr there, same)

module _ {A : Type 0} where
  -- The rows of a table with one more are the old ones and the new one.
  pub In-insert : (a b : A) (xs : List A) → In a (xs ++ b ∷ []) → In a xs ⊎ (a ≡ b)
  In-insert a b [] (inl same) = inr same
  In-insert a b [] (inr m) = absurd m
  In-insert a b (x ∷ xs) (inl same) = inl (inl same)
  In-insert a b (x ∷ xs) (inr m) = elim (In-insert a b xs m) [
    | inl old ↦ inl (inr old)
    | inr new ↦ inr new
  ]

module _ {A : Type 0} (p : A → Bool) where
  -- The new row is found when no other is.
  pub find-insert :
      (xs : List A) (x : A)
      → ((y : A) → In y xs → p y ≡ false)
      → p x ≡ true
      → find p (xs ++ x ∷ []) ≡ some x
  unfolding find
  find-insert [] x others h = rw h refl
  find-insert (y ∷ xs) x others h =
      rw (others y (inl refl)) (find-insert xs x (λ z m. others z (inr m)) h)

  -- What is found satisfies the test.
  pub In-find : (xs : List A) (a : A) → find p xs ≡ some a → In a xs × (p a ≡ true)
  unfolding find
  In-find [] a h = absurd (ground arith)
  In-find (x ∷ xs) a h = elim (Bool-cases (p x)) [
    | inl hit ↦
        let same : x ≡ a = ground arith in (inl (sym same), subst (λ b. p b ≡ true) same hit)
    | inr miss ↦ let (m, hit) = In-find xs a (ground arith) in (inr m, hit)
  ]

  pub any-In : (a : A) (xs : List A) → In a xs → p a ≡ true → any p xs ≡ true
  unfolding any
  any-In a [] m h = absurd m
  any-In a (x ∷ xs) (inl same) h = let hit : p x ≡ true = ap p (sym same) ∙ h in rw hit refl
  any-In a (x ∷ xs) (inr m) h = ground (arith, any-In a xs m h)

  pub none-In : (a : A) (xs : List A) → In a xs → any p xs ≡ false → p a ≡ false
  unfolding any
  none-In a [] m h = absurd m
  none-In a (x ∷ xs) (inl same) h = ap p same ∙ ground arith
  none-In a (x ∷ xs) (inr m) h = none-In a xs m (ground arith)

  module _ (q : A → Bool) (change : A → A) (keeps : (x : A) → p (change x) ≡ p x) where
    -- The row that is found after an update is what the row found before it was changed to.
    pub find-update_where :
        (xs : List A) (a : A)
        → find p xs ≡ some a
        → find p (update_where q change xs) ≡ some (if q a then change a else a)
    unfolding find update_where
    find-update_where [] a h = absurd (ground arith)
    find-update_where (x ∷ xs) a h = ground (arith, keeps x, find-update_where xs a)

    pub filter-update_where :
        (xs : List A) → filter p (update_where q change xs) ≡ update_where q change (filter p xs)
    unfolding filter update_where
    filter-update_where [] = refl
    filter-update_where (x ∷ xs) = ground (arith, keeps x, filter-update_where xs)

    -- No row is found after an update where none was before.
    pub find-update_where-none :
        (xs : List A) → find p xs ≡ none → find p (update_where q change xs) ≡ none
    unfolding find update_where
    find-update_where-none [] h = refl
    find-update_where-none (x ∷ xs) h = ground (arith, keeps x, find-update_where-none xs)
