-- ===== src/Console/Stream/Examples.antt =====
-- The dashboard's stream at a run with a stale frame.
use flagship_platform.Shared.{ℕ, ◌≡◌, List, ◌∷◌, [], ◌⊎◌, All, In}
use flagship_platform.Shared.Int.{pos, negsuc}
use flagship_platform.Console.Stream.{
  Event, opened, ruleset_frame, resync, failed, versioned, unparsable, connect, run,
}
use flagship_platform.Console.Stream.Monotone.{Shown, AtMost, run-shows_newest}
use flagship_platform.Shared.{false}

abbrev events : List Event
events =
    opened
    ∷ ruleset_frame (versioned (pos 4)) 10
    ∷ ruleset_frame (versioned (pos 3)) 11
    ∷ ruleset_frame unparsable 12
    ∷ failed false
    ∷ resync
    ∷ []

run-shows_newest_example :
    Shown (run connect events)
    × All (AtMost (run connect events).highest_version) events
    × (((run connect events).highest_version ≡ negsuc 0)
        ⊎ ((now : ℕ) × In
              (ruleset_frame (versioned (run connect events).highest_version) now)
              events))
run-shows_newest_example = run-shows_newest events
