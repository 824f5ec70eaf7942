-- ===== src/ControlPlane/Ruleset/Search.antt =====
-- The search for prerequisite cycles ends.
use flagship_platform.Shared.{
  ℕ, zero, suc, ◌+◌, ◌≤◌, ◌<◌, ◌≡◌, refl, Option, none, some, List, [], ◌∷◌, ◌++◌, arith, length,
  Option-cases, inl, inr,
}
use flagship_platform.Js.Text.{JsString, str_eq_iff}
use flagship_platform.Js.Map.{JsMap, get, set, get-set}
use flagship_platform.Core.Types.{Prerequisite, Flag}
use flagship_platform.ControlPlane.Ruleset.Cycles.{
  VisitState, visiting, done, Search, flags_by_key, Visited, visit_all, enter, leave, visit,
  visit_flags, new_search, find_prerequisite_cycle, slice_from,
}

-- The flags that no visit has reached.
unreached : JsMap Flag → JsMap VisitState → ℕ
unreached [] state = 0
unreached ((k, flag) ∷ m) state = elim (get state k) [
  | none ↦ 1 + unreached m state
  | some v ↦ unreached m state
]

unreached-le-length : (m : JsMap Flag) (state : JsMap VisitState) → unreached m state ≤ length m
unfolding unreached
unreached-le-length [] state = omega arith
unreached-le-length ((k, flag) ∷ m) state = ground (arith, unreached-le-length m state)

unreached-set_le :
    (m : JsMap Flag) (state : JsMap VisitState) (j : JsString) (v : VisitState)
    → unreached m (set state j v) ≤ unreached m state
unfolding unreached
unreached-set_le [] state j v = omega arith
unreached-set_le ((k, flag) ∷ m) state j v =
    ground (arith, unreached-set_le m state j v, get-set state j k v)

unreached-set_lt :
    (m : JsMap Flag) (state : JsMap VisitState) (j : JsString) (v : VisitState) (flag : Flag)
    → get m j ≡ some flag
    → get state j ≡ none
    → unreached m (set state j v) < unreached m state
unfolding unreached get
unreached-set_lt [] state j v flag e h = cc
unreached-set_lt ((k, w) ∷ m) state j v flag e h = ground (
  arith,
  unreached-set_lt m state j v flag,
  unreached-set_le m state j v,
  get-set state j k v,
  str_eq_iff k j,
  str_eq_iff j k,
)

-- A visit that ends, and that forgets no flag that was reached.
abbrev Ends : JsMap Flag → Search → Visited → Type 0
Ends m held r =
    (found : Option (List JsString)) × (after : Search) × (r ≡ some (found, after))
    × (unreached m after.state ≤ unreached m held.state)

visit_all-Ends :
    (m : JsMap Flag) (v : JsString → Search → Visited) (bound : ℕ)
    → ((key : JsString) (held : Search) → unreached m held.state < bound → Ends m held (v key held))
    → (ps : List Prerequisite) (held : Search) → unreached m held.state < bound
    → Ends m held (visit_all v ps held)
unfolding visit_all
visit_all-Ends m v bound ends [] held h = (none, held, refl, omega arith)
visit_all-Ends m v bound ends (p ∷ ps) held h =
    let (found, after, e, le) = ends p.flag_key held h in
    let (found', after', e', le') = visit_all-Ends m v bound ends ps after (omega arith) in
    elim (Option-cases found) [
      | inl more ↦ (found', after', ground (arith, e, e', more), omega arith)
      | inr (cycle, stop) ↦ (some cycle, after, ground (arith, e, stop), le)
    ]

enter-unreached :
    (m : JsMap Flag) (held : Search) (key : JsString) (flag : Flag)
    → get m key ≡ some flag
    → get held.state key ≡ none
    → unreached m (enter held key).state < unreached m held.state
unfolding enter
enter-unreached m held key flag listed fresh =
    unreached-set_lt m held.state key visiting flag listed fresh

leave-unreached :
    (m : JsMap Flag) (held : Search) (key : JsString)
    → unreached m (leave held key).state ≤ unreached m held.state
unfolding leave
leave-unreached m held key = unreached-set_le m held.state key done

visit-Ends :
    (m : JsMap Flag) (fuel : ℕ) (key : JsString) (held : Search)
    → unreached m held.state < fuel
    → Ends m held (visit m fuel key held)
unfolding visit
visit-Ends m zero key held h = absurd (omega arith)
visit-Ends m (suc fuel) key held h = elim (Option-cases (get held.state key)) [
  | inr (visiting, reached) ↦
      (some (slice_from held.path key ++ key ∷ []), held, rw (reached, visit) refl, omega arith)
  | inr (done, reached) ↦ (none, held, rw (reached, visit) refl, omega arith)
  | inl fresh ↦ elim (Option-cases (get m key)) [
    | inl unknown ↦ (none, held, rw (fresh, visit, unknown) refl, omega arith)
    | inr (flag, listed) ↦
        let fewer = enter-unreached m held key flag listed fresh in
        let (found, after, e, le) =
          visit_all-Ends m (visit m fuel) fuel (λ k s b. visit-Ends m fuel k s b) flag.prerequisites
            (enter held key) (omega arith) in
        elim (Option-cases found) [
          | inl clear ↦
              let kept = leave-unreached m after key in
              (none, leave after key, ground (arith, fresh, listed, e, clear), omega arith)
          | inr (cycle, stop) ↦
              (some cycle, after, ground (arith, fresh, listed, e, stop), omega arith)
        ]
  ]
]

visit_flags-Ends :
    (m : JsMap Flag) (fuel : ℕ) (flags : List Flag) (held : Search)
    → unreached m held.state < fuel
    → Ends m held (visit_flags m fuel flags held)
unfolding visit_flags
visit_flags-Ends m fuel [] held h = (none, held, refl, omega arith)
visit_flags-Ends m fuel (flag ∷ flags) held h =
    let (found, after, e, le) = visit-Ends m fuel flag.key held h in
    let (found', after', e', le') = visit_flags-Ends m fuel flags after (omega arith) in
    elim (Option-cases found) [
      | inl more ↦ (found', after', ground (arith, e, e', more), omega arith)
      | inr (cycle, stop) ↦ (some cycle, after, ground (arith, e, stop), le)
    ]

-- With the fuel that it starts with, the search for a prerequisite cycle ends, whatever the flags.
pub find_prerequisite_cycle_ends :
    (flags : List Flag)
    → (found : Option (List JsString)) × (find_prerequisite_cycle flags ≡ some found)
unfolding find_prerequisite_cycle
find_prerequisite_cycle_ends flags =
    let m = flags_by_key [] flags in
    let (found, after, e, _) =
      visit_flags-Ends m (suc (length m)) flags new_search
        (omega (arith, unreached-le-length m [])) in
    (found, ground (arith, e))
