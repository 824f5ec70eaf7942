-- ===== src/Console/Stream/Monotone.antt =====
-- What the dashboard shows is the newest version that it received.
use flagship_platform.Shared.{
  ℕ, ◌≤◌, ◌≡◌, refl, none, some, List, [], ◌∷◌, arith, ◌⊎◌, inl, inr, All, In, ◌∙◌, ap, Bool-cases,
}
use flagship_platform.Shared.Int.{ℤ, negsuc, ◌≤ℤ◌, leb_ℤ}
use flagship_platform.Console.Stream.{
  Stream, RulesetEvent, Event, opened, ruleset_frame, resync, failed, unparsable, no_version,
  versioned, connect, accept, on_event, run,
}

-- The version on display is the ref's, and the last event is the one that set it; before the first
-- event there is neither, and the ref is -1.
abbrev pub Shown : Stream → Type 0
Shown s =
    ((s.state.version ≡ none)
      × (s.state.last_event ≡ none)
      × (s.state.event_count ≡ 0)
      × (s.highest_version ≡ negsuc 0))
    ⊎ ((e : RulesetEvent) × (s.state.last_event ≡ some e)
        × (s.state.version ≡ some e.version)
        × (s.highest_version ≡ e.version)
        × (1 ≤ s.state.event_count))

on_event-Shown : (s : Stream) (e : Event) → Shown s → Shown (on_event s e)
unfolding on_event accept
on_event-Shown s opened h = h
on_event-Shown s (ruleset_frame unparsable now) h = h
on_event-Shown s (ruleset_frame no_version now) h = h
on_event-Shown s (ruleset_frame (versioned v) now) h =
    elim (Bool-cases (leb_ℤ v s.highest_version)) [
      | inl stale ↦ rw stale h
      | inr newer ↦
          rw newer (inr (record { version = v; received_at = now }, refl, refl, refl, omega arith))
    ]
on_event-Shown s resync h = h
on_event-Shown s (failed is_closed) h = h

-- An event carries no version above `v`.
abbrev pub AtMost : ℤ → Event → Type 0
AtMost v (ruleset_frame (versioned w) now) = w ≤ℤ v
AtMost v _ = Unit

on_event-highest :
    (s : Stream) (e : Event)
    → (s.highest_version ≤ℤ (on_event s e).highest_version)
      × AtMost (on_event s e).highest_version e
unfolding on_event accept
on_event-highest s opened = (omega arith, tt)
on_event-highest s (ruleset_frame unparsable now) = (omega arith, tt)
on_event-highest s (ruleset_frame no_version now) = (omega arith, tt)
on_event-highest s (ruleset_frame (versioned v) now) = ground arith
on_event-highest s resync = (omega arith, tt)
on_event-highest s (failed is_closed) = (omega arith, tt)

on_event-carried :
    (s : Stream) (e : Event)
    → ((on_event s e).highest_version ≡ s.highest_version)
      ⊎ ((now : ℕ) × (ruleset_frame (versioned (on_event s e).highest_version) now ≡ e))
unfolding on_event accept
on_event-carried s opened = inl refl
on_event-carried s (ruleset_frame unparsable now) = inl refl
on_event-carried s (ruleset_frame no_version now) = inl refl
on_event-carried s (ruleset_frame (versioned v) now) =
    elim (Bool-cases (leb_ℤ v s.highest_version)) [
      | inl stale ↦ rw stale (inl refl)
      | inr newer ↦ rw newer (inr (now, refl))
    ]
on_event-carried s resync = inl refl
on_event-carried s (failed is_closed) = inl refl

AtMost-le : (v w : ℤ) (e : Event) → v ≤ℤ w → AtMost v e → AtMost w e
AtMost-le v w (ruleset_frame (versioned u) now) h m = omega arith
AtMost-le v w (ruleset_frame unparsable now) h m = tt
AtMost-le v w (ruleset_frame no_version now) h m = tt
AtMost-le v w opened h m = tt
AtMost-le v w resync h m = tt
AtMost-le v w (failed is_closed) h m = tt

run-invariant :
    (s : Stream) (events : List Event)
    → Shown s
    → Shown (run s events)
      × (s.highest_version ≤ℤ (run s events).highest_version)
      × All (AtMost (run s events).highest_version) events
unfolding run
run-invariant s [] h = (h, omega arith, tt)
run-invariant s (e ∷ es) h =
    let (shown, above, all) = run-invariant (on_event s e) es (on_event-Shown s e h) in
    let (grown, here) = on_event-highest s e in
    (
      shown,
      omega arith,
      (
        AtMost-le (on_event s e).highest_version (run (on_event s e) es).highest_version e above
            here,
        all,
      ),
    )

-- The version that the ref ends with is the one it started with or one that a frame carried.
run-carried :
    (s : Stream) (events : List Event)
    → ((run s events).highest_version ≡ s.highest_version)
      ⊎ ((now : ℕ) × In (ruleset_frame (versioned (run s events).highest_version) now) events)
unfolding run
run-carried s [] = inl refl
run-carried s (e ∷ es) = elim (run-carried (on_event s e) es) [
  | inr (now, m) ↦ inr (now, inr m)
  | inl same ↦ elim (on_event-carried s e) [
    | inl kept ↦ inl (same ∙ kept)
    | inr (now, here) ↦ inr (now, inl (ap (λ v. ruleset_frame (versioned v) now) same ∙ here))
  ]
]

-- From the moment of connecting, after any events: the version on display, the version of the last
-- event and the ref agree, and before the first accepted frame there is none and the ref is -1;
-- no frame carried a version above the ref; and the ref is -1 or a version that a frame carried.
pub run-shows_newest :
    (events : List Event)
    → Shown (run connect events)
      × All (AtMost (run connect events).highest_version) events
      × (((run connect events).highest_version ≡ negsuc 0)
          ⊎ ((now : ℕ) × In
                (ruleset_frame (versioned (run connect events).highest_version) now)
                events))
run-shows_newest events =
    let (shown, _, all) = run-invariant connect events (inl (refl, refl, refl, refl)) in
    (shown, all, run-carried connect events)
