-- ===== src/ControlPlane/Writer/Waves.antt =====
-- apps/control-plane/src/exposures.ts: `drain`, with batches that arrive and writes that settle while it
-- waits.
use flagship_platform.Shared.{
  ℕ, zero, suc, ◌+◌, ◌≤◌, ◌<◌, ◌≡◌, refl, Bool, true, List, [], ◌∷◌, arith, length, ltb, leb,
  Bool-cases, inl, inr, ◌∙◌, ap, if◌then◌else◌,
}
use flagship_platform.ControlPlane.Writer.{
  Writer, settle, stats, Draining, waiting, returned, next_wave, WriterEvent, wave_after, resume,
  on_writer_event, on_writer_events, Settling, next_event, settle_rest, drain,
}
use flagship_platform.ControlPlane.Writer.Backpressure.{rows_in, Reach, IsBounded, Reach-IsBounded}
use flagship_platform.ControlPlane.Writer.Waiting.{
  IsDraining, next_wave-IsWave, settle-length, on_writer_event-IsDraining,
  on_writer_events-IsDraining,
}

-- How many events are left at most: two for each write, and one more between two waves.
left_of : Writer → Draining → ℕ
left_of w (waiting zero) = length w.in_flight + length w.in_flight + 1
left_of w (waiting (suc unsettled)) = length w.in_flight + length w.in_flight
left_of w (returned v) = 0

waiting_left :
    (w : Writer) (n : ℕ) → left_of w (waiting n) ≤ length w.in_flight + length w.in_flight + 1
unfolding left_of
waiting_left w zero = omega arith
waiting_left w (suc n) = omega arith

wave_left :
    (w : Writer) (n : ℕ) → 0 < n → left_of w (waiting n) ≤ length w.in_flight + length w.in_flight
unfolding left_of
wave_left w zero h = absurd (omega (arith, h))
wave_left w (suc n) h = omega arith

next_wave_left : (w : Writer) → left_of w (next_wave w) ≤ length w.in_flight + length w.in_flight
unfolding next_wave
next_wave_left w = elim (Bool-cases (leb (length w.in_flight) 0)) [
  | inl none_left ↦ rw none_left (unfold left_of in omega arith)
  | inr some_left ↦ rw some_left (wave_left w (length w.in_flight) (ground arith))
]

chosen : (k n : ℕ) → 0 < n → ltb (if ltb k n then k else 0) n ≡ true
chosen k n h = ground arith

-- A write that settles leaves one write fewer.
settled_left :
    (w : Writer) (i n : ℕ) (is_written : Bool)
    → ltb i (length w.in_flight) ≡ true
    → 0 < length w.in_flight
    → left_of (settle w i is_written) (waiting n) + 1 ≤ length w.in_flight + length w.in_flight
settled_left w i n is_written h some_left =
    let fewer = (settle-length w i is_written).1 in
    let fewest = waiting_left (settle w i is_written) n in
    ground (arith, fewer, h, fewest, some_left)

next_event-shrinks :
    (max first fuel : ℕ) (settling : Settling) (w : Writer) (d : Draining)
    → IsDraining max first w d
    → left_of w d ≤ suc fuel
    → (let (w', d') = on_writer_event max (next_event settling (w, d)) (w, d) in
        left_of w' d' ≤ fuel)
unfolding on_writer_event next_event left_of resume wave_after
next_event-shrinks max first fuel settling w (waiting zero) h enough =
    omega (arith, enough, next_wave_left w)
next_event-shrinks max first fuel settling w (waiting (suc n)) h enough =
    let some_left : 0 < length w.in_flight = omega (arith, h.wave) in
    let meant = chosen (settling w).0 (length w.in_flight) some_left in
    omega (arith, enough, settled_left w _ _ (settling w).1 meant some_left)
next_event-shrinks max first fuel settling w (returned v) h enough = omega arith

-- `drain` has returned, with no write in flight and at least the `first` rows accepted.
record HasReturned (max first : ℕ) (d : Draining) : Type 0 where
  at_end : Writer
  ended : d ≡ returned at_end
  bounded : IsBounded max at_end
  empty : length at_end.in_flight ≡ 0
  grown : first ≤ at_end.accepted

ends :
    (max first : ℕ) (w : Writer) (d : Draining)
    → IsDraining max first w d
    → left_of w d ≤ 0
    → HasReturned max first d
unfolding left_of
ends max first w (waiting zero) h over = absurd (omega (arith, over))
ends max first w (waiting (suc n)) h over = absurd (omega (arith, over, h.wave))
ends max first w (returned v) h over = record {
  at_end = v;
  ended = refl;
  bounded = h.wave.0;
  empty = h.wave.1;
  grown = h.wave.2;
}

settle_rest-HasReturned :
    (max first fuel : ℕ) (settling : Settling) (w : Writer) (d : Draining)
    → IsDraining max first w d
    → left_of w d ≤ fuel
    → HasReturned max first (settle_rest fuel max settling (w, d)).1
unfolding settle_rest
settle_rest-HasReturned max first zero settling w d h enough = ends max first w d h enough
settle_rest-HasReturned max first (suc fuel) settling w d h enough =
    let e = next_event settling (w, d) in
    settle_rest-HasReturned max first fuel settling (on_writer_event max e (w, d)).0
      (on_writer_event max e (w, d)).1 (on_writer_event-IsDraining max first e w d h)
      (next_event-shrinks max first fuel settling w d h enough)

most_left :
    (max first : ℕ) (w : Writer) (d : Draining)
    → left_of w d ≤ length w.in_flight + (length w.in_flight + 1)
unfolding left_of
most_left max first w (waiting n) = omega (arith, waiting_left w n)
most_left max first w (returned v) = omega arith

empty_list : {A : Type 0} (xs : List A) → length xs ≡ 0 → xs ≡ []
empty_list [] h = refl
empty_list (x ∷ xs) h = absurd (omega (arith, h))

drain-HasReturned :
    {max : ℕ} {w : Writer} (events : List WriterEvent) (settling : Settling)
    → Reach max w
    → HasReturned max w.accepted (drain max events settling w)
unfolding drain
drain-HasReturned {max} {w} events settling reach =
    let bounded = Reach-IsBounded reach in
    let start : IsDraining max w.accepted w (next_wave w) = record {
      bounded = bounded;
      grown = omega arith;
      wave = next_wave-IsWave max w.accepted w bounded (omega arith);
    } in
    let (w', d') = on_writer_events max events (w, next_wave w) in
    settle_rest-HasReturned max w.accepted _ settling w' d'
      (on_writer_events-IsDraining max w.accepted events w (next_wave w) start)
      (most_left max w.accepted w' d')

-- `drain` is called in a state that the writer reaches. While it waits, any batches arrive, any writes
-- settle and waves end, in any order; after those events no batch arrives any more, and each write that
-- is left settles, in any order and written or failed. Then `drain` returns. When it does, no write and no
-- row is in flight, and every row that was accepted by then, before or after the call, was written or
-- failed.
pub drain-settled :
    {max : ℕ} {w : Writer} (events : List WriterEvent) (settling : Settling)
    → Reach max w
    → (v : Writer) × (drain max events settling w ≡ returned v)
      × (v.in_flight ≡ [])
      × ((stats v).in_flight_rows ≡ 0)
      × (w.accepted ≤ (stats v).accepted)
      × ((stats v).written + (stats v).failed ≡ (stats v).accepted)
unfolding stats rows_in
drain-settled {max} {w} events settling reach =
    let r = drain-HasReturned events settling reach in
    let empty = empty_list r.at_end.in_flight r.empty in
    let no_rows = r.bounded.counted ∙ ap rows_in empty in
    (r.at_end, r.ended, empty, no_rows, r.grown, omega (arith, r.bounded.accounted, no_rows))
