-- ===== src/ControlPlane/Ruleset/Compile.antt =====
-- apps/control-plane/src/ruleset.ts: `compileRuleset`.
use flagship_platform.Shared.{Option, none, some, List, [], ◌∷◌, ◌++◌, map, ◌>>=◌}
use flagship_platform.Js.Text.{JsString}
use flagship_platform.Core.Types.{Flag, Segment, RulesetSnapshot}
use flagship_platform.Core.Visibility.{
  KeyKind, filter_snapshot_for_key, find_server_only_leaks, Leak,
}
use flagship_platform.ControlPlane.Ruleset.{
  Problem, cycle, leaking, set_of, validate_flags, validate_segments,
}
use flagship_platform.ControlPlane.Ruleset.Cycles.{find_prerequisite_cycle}

pub record CompiledRuleset : Type 0 where
  pub server : RulesetSnapshot
  pub client : RulesetSnapshot

-- What `compileRuleset` returns, or the problems of the exception that it throws.
pub data Compiled : Type 0 where
  refused : List Problem → Compiled
  compiled : CompiledRuleset → Compiled

unfoldable pub cycle_problems : Option (List JsString) → List Problem
cycle_problems none = []
cycle_problems (some path) = cycle path ∷ []

-- The `problems`, once the search for cycles has ended.
unfoldable pub all_problems : List Flag → List Segment → Option (List JsString) → List Problem
all_problems flags segments found =
    validate_segments segments
    ++ (validate_flags (set_of [] (map (λ s. s.key) segments)) (set_of [] (map (λ f. f.key) flags))
          flags
        ++ cycle_problems found)

-- `none` is a search for cycles that ran out of fuel.
unfoldable pub problems_of : List Flag → List Segment → Option (List Problem)
problems_of flags segments = do
  found ← find_prerequisite_cycle flags
  some (all_problems flags segments found)

-- The last check: the client payload is searched for leaks.
unfoldable pub checked : (server client : RulesetSnapshot) → List Leak → Compiled
checked server client [] = compiled (record { server = server; client = client })
checked server client (leak ∷ leaks) = refused (leaking (leak ∷ leaks) ∷ [])

unfoldable pub publish : RulesetSnapshot → List Problem → Option Compiled
publish server (problem ∷ problems) = some (refused (problem ∷ problems))
publish server [] = do
  client ← filter_snapshot_for_key server KeyKind.client
  some (checked server client (find_server_only_leaks client))

-- `server` holds the rows, with their declared types.
unfoldable pub compile_ruleset : (server : RulesetSnapshot) → Option Compiled
compile_ruleset server = do
  problems ← problems_of server.flags server.segments
  publish server problems
