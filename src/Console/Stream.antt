-- ===== src/Console/Stream.antt =====
-- apps/console/src/hooks/useRulesetStream.ts: the state of the hook while one environment is
-- selected. `EventSource` and React are the environment; what they deliver is a sequence of events.
mod Examples
pub mod Monotone
use flagship_platform.Shared.{
  ℕ, ◌+◌, Bool, true, false, Option, none, some, List, [], ◌∷◌, if◌then◌else◌,
}
use flagship_platform.Shared.Int.{ℤ, negsuc, leb_ℤ}

pub data StreamStatus : Type 0 where
  connecting live reconnecting error : StreamStatus

pub record RulesetEvent : Type 0 where
  pub version : ℤ
  pub received_at : ℕ

pub record StreamState : Type 0 where
  pub status : StreamStatus
  pub version : Option ℤ
  pub last_event : Option RulesetEvent
  pub event_count : ℕ

-- The state and the ref `highestVersion`.
pub record Stream : Type 0 where
  pub state : StreamState
  pub highest_version : ℤ

-- The `data` of a `ruleset` frame: text that does not parse, JSON whose `version` is no number, or
-- a version.
pub data Frame : Type 0 where
  unparsable no_version : Frame
  versioned : ℤ → Frame

pub data Event : Type 0 where
  opened : Event
  ruleset_frame : Frame → (now : ℕ) → Event
  resync : Event
  failed : (is_closed : Bool) → Event

-- The state that the effect sets when an environment is selected.
abbrev pub connect : Stream
connect = record {
  state = record { status = connecting; version = none; last_event = none; event_count = 0 };
  highest_version = negsuc 0;
}

abbrev with_status : Stream → StreamStatus → Stream
with_status s status = record s { state = record s.state { status = status } }

unfoldable pub accept : Stream → ℤ → (now : ℕ) → Stream
accept s version now = record {
  state = record {
    status = live;
    version = some version;
    last_event = some (record { version = version; received_at = now });
    event_count = s.state.event_count + 1;
  };
  highest_version = version;
}

unfoldable pub on_event : Stream → Event → Stream
on_event s opened = with_status s live
on_event s (ruleset_frame unparsable now) = s
on_event s (ruleset_frame no_version now) = s
on_event s (ruleset_frame (versioned version) now) =
    if leb_ℤ version s.highest_version then s else accept s version now
on_event s resync = with_status s reconnecting
on_event s (failed is_closed) = with_status s (if is_closed then error else reconnecting)

unfoldable pub run : Stream → List Event → Stream
run s [] = s
run s (event ∷ events) = run (on_event s event) events
