-- ===== src/Core/Visibility/Leaks.antt =====
-- The client payload against `findServerOnlyLeaks`.
use flagship_platform.Shared.{
  ◌≡◌, ◌≢◌, refl, ap, true, false, not, some, List, [], ◌∷◌, map, arith, All, In, In-filter,
  All-filter, filter, inl, inr, and-true,
}
use flagship_platform.Js.Text.{JsString, str_eq_iff}
use flagship_platform.Js.Set.{JsSet, has, add, has-add}
use flagship_platform.Core.Types.{Segment, Flag, TargetingRule, RulesetSnapshot}
use flagship_platform.Core.Visibility.{
  KeyKind, contains_server_only, referenced_segments, all_in, tree_is_safe, client_safe_segments,
  is_rule_client_safe, filter_flag, filter_snapshot_for_key, segment_leaks, missing_leaks,
  rule_leaks, flag_leaks, keys_of, find_server_only_leaks,
}
use flagship_platform.Core.Visibility.Fixpoint.{
  Within, IsLeastSafe, client_safe_segments-IsLeastSafe,
}

-- No two segments have the same key.
abbrev pub HasDistinctKeys : List Segment → Type 0
HasDistinctKeys [] = Unit
HasDistinctKeys (s ∷ ss) = All (λ t. t.key ≢ s.key) ss × HasDistinctKeys ss

In-All : (P : Segment → Type 0) (ss : List Segment) (s : Segment) → All P ss → In s ss → P s
In-All P (x ∷ xs) s (p, h) (inl e) = rw e p
In-All P (x ∷ xs) s (p, h) (inr m) = In-All P xs s h m
In-All P [] s h m = absurd m

pub eq_of_key :
    (ss : List Segment) (s t : Segment)
    → HasDistinctKeys ss
    → In s ss
    → In t ss
    → s.key ≡ t.key
    → s ≡ t
eq_of_key [] s t d m n e = absurd m
eq_of_key (x ∷ xs) s t d (inl p) (inl q) e = cc
eq_of_key (x ∷ xs) s t d (inl p) (inr n) e =
    absurd (In-All (λ u. u.key ≢ x.key) xs t d.0 n (cc (e, ap (λ (u : Segment). u.key) p)))
eq_of_key (x ∷ xs) s t d (inr m) (inl q) e =
    absurd (In-All (λ u. u.key ≢ x.key) xs s d.0 m (cc (e, ap (λ (u : Segment). u.key) q)))
eq_of_key (x ∷ xs) s t d (inr m) (inr n) e = eq_of_key xs s t d.1 m n e

has-keys_of :
    (ss : List Segment) (into : JsSet) (k : JsString)
    → has into k ≡ true
    → has (keys_of ss into) k ≡ true
unfolding keys_of
has-keys_of [] into k h = h
has-keys_of (s ∷ ss) into k h =
    has-keys_of ss (add into s.key) k (ground (arith, has-add into s.key k))

-- The key of each listed segment is collected.
has-keys_of-In :
    (ss : List Segment) (into : JsSet) (s : Segment) → In s ss → has (keys_of ss into) s.key ≡ true
unfolding keys_of
has-keys_of-In [] into s m = absurd m
has-keys_of-In (x ∷ xs) into s (inl e) = rw e (
    has-keys_of xs (add into x.key) x.key
      (ground (arith, has-add into x.key x.key, str_eq_iff x.key x.key)))
has-keys_of-In (x ∷ xs) into s (inr m) = has-keys_of-In xs (add into x.key) s m

segment_leaks-none :
    (ss : List Segment) → All (λ s. contains_server_only s.when ≡ false) ss → segment_leaks ss ≡ []
unfolding segment_leaks
segment_leaks-none [] h = refl
segment_leaks-none (s ∷ ss) (p, h) = rw (p, segment_leaks-none ss h) refl

module _ (safe keys : JsSet) (covers : Within safe keys) where
  missing_leaks-none :
      (flag id : JsString) (ks : JsSet) → all_in ks safe ≡ true → missing_leaks flag id keys ks ≡ []
  unfolding missing_leaks all_in
  missing_leaks-none flag id [] h = refl
  missing_leaks-none flag id (k ∷ ks) h =
      let (here, later) = and-true {a = has safe k} h in
      rw (covers k here, missing_leaks-none flag id ks later) refl

  rule_leaks-none :
      (flag : JsString) (rules : List TargetingRule)
      → All (λ r. is_rule_client_safe safe r ≡ true) rules
      → rule_leaks flag keys rules ≡ []
  unfolding rule_leaks is_rule_client_safe tree_is_safe
  rule_leaks-none flag [] h = refl
  rule_leaks-none flag (r ∷ rs) (p, h) =
      let (clean, inside) = and-true {a = not (contains_server_only r.when)} p in
      let no_server : contains_server_only r.when ≡ false = ground arith in
      let none_missing = missing_leaks-none flag r.id (referenced_segments r.when []) inside in
      rw (no_server, none_missing, rule_leaks-none flag rs h) refl

  flag_leaks-none : (flags : List Flag) → flag_leaks keys (map (filter_flag safe) flags) ≡ []
  unfolding flag_leaks filter_flag
  flag_leaks-none [] = refl
  flag_leaks-none (f ∷ fs) =
      let kept =
        All-filter (λ r. is_rule_client_safe safe r ≡ true) (is_rule_client_safe safe) f.rules
          (λ r m h. h) in
      rw
        (rule_leaks-none f.key (filter (is_rule_client_safe safe) f.rules) kept, flag_leaks-none fs)
        refl

-- With distinct segment keys, a segment whose key is safe has a safe tree.
pub safe_tree_of_key :
    (ss : List Segment) (safe : JsSet)
    → HasDistinctKeys ss
    → IsLeastSafe ss safe
    → (s : Segment) → In s ss
    → has safe s.key ≡ true
    → tree_is_safe s.when safe ≡ true
safe_tree_of_key ss safe d h s m k =
    let (t, n, named, clean) = h.grounded s.key k in rw (eq_of_key ss s t d m n (cc named)) clean

not_server_only :
    (s : Segment) (safe : JsSet)
    → tree_is_safe s.when safe ≡ true
    → contains_server_only s.when ≡ false
unfolding tree_is_safe
not_server_only s safe h = ground arith

-- Every safe key is the key of a segment that is kept.
safe_keys_kept :
    (ss : List Segment) (safe : JsSet)
    → IsLeastSafe ss safe
    → Within safe (keys_of (filter (λ s. has safe s.key) ss) [])
safe_keys_kept ss safe least k h =
    let (s, m, named, _) = least.grounded k h in
    let kept = filter (λ (t : Segment). has safe t.key) ss in
    let listed : In s kept = In-filter (λ t. has safe t.key) s ss m (rw named h) in
    rw (← named) (has-keys_of-In kept [] s listed)

-- The payload that client keys receive, for the safe keys `safe`.
abbrev pub client_payload : RulesetSnapshot → JsSet → RulesetSnapshot
client_payload snapshot safe = record snapshot {
  flags = map (filter_flag safe) snapshot.flags;
  segments = filter (λ s. has safe s.key) snapshot.segments;
}

pub filter_snapshot-client :
    (snapshot : RulesetSnapshot) (safe : JsSet)
    → client_safe_segments snapshot.segments ≡ some safe
    → filter_snapshot_for_key snapshot KeyKind.client ≡ some (client_payload snapshot safe)
unfolding filter_snapshot_for_key
filter_snapshot-client snapshot safe found = rw (found, filter_snapshot_for_key) refl

payload-no_leaks :
    (snapshot : RulesetSnapshot) (safe : JsSet)
    → HasDistinctKeys snapshot.segments
    → IsLeastSafe snapshot.segments safe
    → find_server_only_leaks (client_payload snapshot safe) ≡ []
unfolding find_server_only_leaks
payload-no_leaks snapshot safe d least =
    let ss = snapshot.segments in
    let kept = filter (λ (s : Segment). has safe s.key) ss in
    let clean =
      All-filter (λ s. contains_server_only s.when ≡ false) (λ s. has safe s.key) ss
        (λ s m k. not_server_only s safe (safe_tree_of_key ss safe d least s m k)) in
    let no_flag =
      flag_leaks-none safe (keys_of kept []) (safe_keys_kept ss safe least) snapshot.flags in
    rw (segment_leaks-none kept clean, no_flag) refl

-- If no two segments share a key, the client payload exists, and `findServerOnlyLeaks` finds
-- nothing in it: no server-only node in a segment or a rule, and no reference to a segment that was
-- dropped.
pub client_payload-no_leaks :
    (snapshot : RulesetSnapshot)
    → HasDistinctKeys snapshot.segments
    → (payload : RulesetSnapshot) × (filter_snapshot_for_key snapshot KeyKind.client ≡ some payload)
      × (find_server_only_leaks payload ≡ [])
client_payload-no_leaks snapshot d =
    let (safe, found, least) = client_safe_segments-IsLeastSafe snapshot.segments in
    (
      client_payload snapshot safe,
      filter_snapshot-client snapshot safe found,
      payload-no_leaks snapshot safe d least,
    )
