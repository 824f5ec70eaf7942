-- ===== src/ControlPlane/Ruleset/Cycles.antt =====
-- apps/control-plane/src/ruleset.ts: `findPrerequisiteCycle`.
use flagship_platform.Shared.{
  ℕ, zero, suc, Option, none, some, List, [], ◌∷◌, ◌++◌, if◌then◌else◌, length, ◌>>=◌,
}
use flagship_platform.Js.Text.{JsString, str_eq}
use flagship_platform.Js.Map.{JsMap, get, set}
use flagship_platform.Core.Types.{Prerequisite, Flag}

pub data VisitState : Type 0 where
  visiting done : VisitState

-- `state` and `path`.
pub record Search : Type 0 where
  pub state : JsMap VisitState
  pub path : List JsString

-- path.slice(path.indexOf(key)), for a key of the path
unfoldable pub slice_from : List JsString → JsString → List JsString
slice_from [] key = []
slice_from (k ∷ ks) key = let rest = slice_from ks key in if str_eq k key then k ∷ ks else rest

-- path.pop()
unfoldable pub pop : List JsString → List JsString
pop [] = []
pop (k ∷ []) = []
pop (k ∷ j ∷ ks) = k ∷ pop (j ∷ ks)

-- new Map(flags.map(…)), set onto `m`
unfoldable pub flags_by_key : JsMap Flag → List Flag → JsMap Flag
flags_by_key m [] = m
flags_by_key m (flag ∷ flags) = flags_by_key (set m flag.key flag) flags

-- What `visit` gives: the cycle if it found one, and the search; `none` outside is out of fuel.
abbrev pub Visited : Type 0
Visited = Option (Option (List JsString) × Search)

-- The loop over a flag's prerequisites.
unfoldable pub visit_all :
    (visit : JsString → Search → Visited) → List Prerequisite → Search → Visited
visit_all visit [] search = some (none, search)
visit_all visit (p ∷ ps) search = do
  (found, after) ← visit p.flag_key search
  let rest = visit_all visit ps after
  elim found [ none ↦ rest | some cycle ↦ some (some cycle, after) ]

unfoldable pub enter : Search → JsString → Search
enter search key = record { state = set search.state key visiting; path = search.path ++ key ∷ [] }

unfoldable pub leave : Search → JsString → Search
leave search key = record { state = set search.state key done; path = pop search.path }

unfoldable pub visit : (by_key : JsMap Flag) → (fuel : ℕ) → JsString → Search → Visited
visit by_key zero key search = none
visit by_key (suc fuel) key search = elim (get search.state key) [
  | some done ↦ some (none, search)
  | some visiting ↦ some (some (slice_from search.path key ++ key ∷ []), search)
  | none ↦ elim (get by_key key) [
    | none ↦ some (none, search)
    | some flag ↦ do
      (found, after) ← visit_all (visit by_key fuel) flag.prerequisites (enter search key)
      elim found [ some cycle ↦ some (some cycle, after) | none ↦ some (none, leave after key) ]
  ]
]

-- The loop over the flags.
unfoldable pub visit_flags : (by_key : JsMap Flag) → (fuel : ℕ) → List Flag → Search → Visited
visit_flags by_key fuel [] search = some (none, search)
visit_flags by_key fuel (flag ∷ flags) search = do
  (found, after) ← visit by_key fuel flag.key search
  let rest = visit_flags by_key fuel flags after
  elim found [ none ↦ rest | some cycle ↦ some (some cycle, after) ]

abbrev pub new_search : Search
new_search = record { state = []; path = [] }

-- The fuel is more than the number of flags that one path can enter.
unfoldable pub find_prerequisite_cycle : List Flag → Option (Option (List JsString))
find_prerequisite_cycle flags =
    let by_key = flags_by_key [] flags in
    do (found, after) ← visit_flags by_key (suc (length by_key)) flags new_search; some found
