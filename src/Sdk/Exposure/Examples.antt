-- ===== src/Sdk/Exposure/Examples.antt =====
-- The buffer's theorems at a run with a flush in flight.
use flagship_platform.Shared.{ℕ, ◌-◌, ◌/◌, ◌≡◌, refl, true, false, leb, ltb, arith, [], none, ◌+◌}
use flagship_platform.Shared.Int.{pos}
use flagship_platform.Js.Text.{js}
use flagship_platform.Js.Double.{Doubles}
use flagship_platform.Core.Samples.{sample_host}
use flagship_platform.Sdk.Exposure.{
  IncomingEvent, Buffer, new_buffer, Options, flush, close, record_event, enqueue, sampling_rate,
  transport_resolved,
}
use flagship_platform.Sdk.Exposure.Accounting.{
  Reach, IsAccounted, Reach-IsAccounted, at_first, after, recording,
}
use flagship_platform.Sdk.Exposure.Closing.{
  none_yet, then_one, IsShut, closed-IsShut, close-outcome,
}

ltb_irrefl : (a : ℕ) → ltb a a ≡ false
ltb_irrefl a = ground arith

-- Whole numbers in place of floating point.
abbrev whole_numbers : Doubles
whole_numbers = record {
  Double = ℕ;
  of_nat = λ n. n;
  div = λ a b. a / b;
  sub = λ a b. a - b;
  max_of = λ a b. b;
  le = leb;
  lt = ltb;
  lt_irrefl = ltb_irrefl;
}

abbrev options : Options whole_numbers
options = record { batch_size = 1; max_queue_size = 10; sampling_threshold = 1 }

abbrev exposure : IncomingEvent
exposure = record {
  flag_key = js "checkout";
  variation_key = js "on";
  context_key = js "u1";
  ruleset_version = pos 3;
  timestamp = none;
  dedupe_key = none;
}

-- One event recorded; the batch is full, so a flush is in flight.
abbrev one_in_flight : Buffer
one_in_flight = (record_event whole_numbers sample_host options new_buffer exposure 0 (js "t")).0

-- A second event waits behind it.
abbrev one_waiting : Buffer
one_waiting = (record_event whole_numbers sample_host options one_in_flight exposure 0 (js "t")).0

one_waiting-Reach : Reach whole_numbers sample_host options one_waiting
one_waiting-Reach =
    after (after at_first (recording exposure 0 (js "t"))) (recording exposure 0 (js "t"))

-- The queue holds an event and the transport holds another.
one_waiting_counts :
    (one_waiting.recorded ≡ 2)
    × (one_waiting.flush_in_flight ≡ true)
    × ((transport_resolved (close one_waiting)).sent ≡ 1)
unfolding record_event enqueue flush sampling_rate close transport_resolved
one_waiting_counts = (refl, refl, refl)

Reach-IsAccounted_example : IsAccounted 10 one_waiting
Reach-IsAccounted_example = Reach-IsAccounted one_waiting-Reach

close-outcome_example :
    (one_waiting.flush_in_flight ≡ false
      → ((transport_resolved (close one_waiting)).queue ≡ [])
        × (one_waiting.recorded
            ≡ (transport_resolved (close one_waiting)).sent + one_waiting.failed))
    × (one_waiting.flush_in_flight ≡ true
        → (transport_resolved (close one_waiting)).queue ≡ one_waiting.queue)
close-outcome_example = close-outcome one_waiting-Reach

abbrev shut : Buffer
shut = close new_buffer

abbrev shut_later : Buffer
shut_later = (record_event whole_numbers sample_host options shut exposure 0 (js "t")).0

shut_closed : (shut.closed ≡ true) × (shut.timer ≡ false)
unfolding close flush
shut_closed = (refl, refl)

closed_example : IsShut shut shut_later
closed_example =
    closed-IsShut {D = whole_numbers} {host = sample_host} {options = options}
      (then_one none_yet (recording exposure 0 (js "t"))) shut_closed.0 shut_closed.1
