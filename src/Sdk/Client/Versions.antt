-- ===== src/Sdk/Client/Versions.antt =====
-- The version guard of `applySnapshot` under any order of delivery.
use flagship_platform.Shared.{
  ◌≡◌, refl, sym, ◌∙◌, ap, some, List, [], ◌∷◌, arith, if◌then◌else◌, ◌↔◌, In, All, Bool-cases, inl,
  inr,
}
use flagship_platform.Shared.Int.{◌≤ℤ◌, leb_ℤ, eq_of_parts}
use flagship_platform.Core.Types.{RulesetSnapshot}
use flagship_platform.Core.Evaluate.{index_snapshot}
use flagship_platform.Sdk.Client.{FlagshipClient, empty_client, apply, version, apply_snapshot}

-- Frames applied in the order in which they arrive.
unfoldable pub deliver : FlagshipClient → List RulesetSnapshot → FlagshipClient
deliver client [] = client
deliver client (frame ∷ frames) = deliver (apply_snapshot client frame).0 frames

-- The client that holds a snapshot, with the index built from that snapshot.
abbrev pub holding : RulesetSnapshot → FlagshipClient
holding s = record { snapshot = some s; env = some (index_snapshot s) }

step-holding :
    (s next : RulesetSnapshot)
    → (apply_snapshot (holding s) next).0
      ≡ (if leb_ℤ next.version s.version then holding s else holding next)
unfolding apply_snapshot apply
step-holding s next = ground arith

In-skip : (t s x : RulesetSnapshot) (xs : List RulesetSnapshot) → In t (s ∷ xs) → In t (s ∷ x ∷ xs)
In-skip t s x xs (inl e) = inl e
In-skip t s x xs (inr m) = inr (inr m)

-- From a held snapshot the client ends with one of the delivered snapshots or the held one, and
-- none of these is newer.
deliver-holding :
    (s : RulesetSnapshot) (frames : List RulesetSnapshot)
    → (t : RulesetSnapshot) × (deliver (holding s) frames ≡ holding t)
      × In t (s ∷ frames)
      × All (λ f. f.version ≤ℤ t.version) (s ∷ frames)
unfolding deliver
deliver-holding s [] = (s, refl, inl refl, (omega arith, tt))
deliver-holding s (x ∷ xs) = elim (Bool-cases (leb_ℤ x.version s.version)) [
  | inl stale ↦
      let (t, end, m, (above, all)) = deliver-holding s xs in
      let kept : (apply_snapshot (holding s) x).0 ≡ holding s = rw (step-holding s x, stale) refl in
      (t, ap (λ c. deliver c xs) kept ∙ end, In-skip t s x xs m, (above, (ground arith, all)))
  | inr newer ↦
      let (t, end, m, (above, all)) = deliver-holding x xs in
      let moved : (apply_snapshot (holding s) x).0 ≡ holding x =
        rw (step-holding s x, newer) refl in
      (t, ap (λ c. deliver c xs) moved ∙ end, inr m, (ground arith, (above, all)))
]

All-at :
    (P : RulesetSnapshot → Type 0) (xs : List RulesetSnapshot) (s : RulesetSnapshot)
    → All P xs
    → In s xs
    → P s
All-at P [] s h m = absurd m
All-at P (x ∷ xs) s (p, h) (inl e) = rw e p
All-at P (x ∷ xs) s (p, h) (inr m) = All-at P xs s h m

-- After any frames a client holds a snapshot with its own index, and the version never goes back:
-- it is at least that of the snapshot held before and of every frame.
pub deliver-version :
    (s : RulesetSnapshot) (frames : List RulesetSnapshot)
    → (t : RulesetSnapshot) × (deliver (holding s) frames ≡ holding t)
      × (s.version ≤ℤ version (deliver (holding s) frames))
      × All (λ f. f.version ≤ℤ version (deliver (holding s) frames)) frames
unfolding version
deliver-version s frames =
    let (t, end, _, (above, all)) = deliver-holding s frames in (t, end, rw end above, rw end all)

-- If a version names one snapshot, two clients that receive the same frames end in the same state,
-- whatever the orders of arrival and however often a frame is repeated.
pub deliver-order_irrelevant :
    (fs gs : List RulesetSnapshot)
    → ((s t : RulesetSnapshot) → In s fs → In t fs → s.version ≡ t.version → s ≡ t)
    → ((s : RulesetSnapshot) → In s fs ↔ In s gs)
    → deliver empty_client fs ≡ deliver empty_client gs
deliver-order_irrelevant [] [] distinct same = refl
deliver-order_irrelevant [] (g ∷ gs) distinct same = absurd ((same g).1 (inl refl))
deliver-order_irrelevant (f ∷ fs) [] distinct same = absurd ((same f).0 (inl refl))
deliver-order_irrelevant (f ∷ fs) (g ∷ gs) distinct same =
    let (t, end, m, above) = deliver-holding f fs in
    let (u, end', n, above') = deliver-holding g gs in
    let lower = All-at (λ x. x.version ≤ℤ t.version) (f ∷ fs) u above ((same u).1 n) in
    let upper = All-at (λ x. x.version ≤ℤ u.version) (g ∷ gs) t above' ((same t).0 m) in
    let level : t.version ≡ u.version = eq_of_parts t.version u.version (omega arith) in
    let one : t ≡ u = distinct t u m ((same u).1 n) level in
    unfold deliver apply_snapshot apply in (end ∙ (ap holding one ∙ sym end'))
