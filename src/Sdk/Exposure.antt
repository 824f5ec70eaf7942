-- ===== src/Sdk/Exposure.antt =====
-- packages/sdk-js/src/exposure.ts: `ExposureBuffer`. A `flush` that waits for the transport is the
-- field `batch`, and the answer of the transport is a call of its own. The clock's text, the random
-- draw and floating point are arguments. `HttpExposureTransport`, which only calls `fetch`, is left
-- out.
mod Examples
pub mod Accounting
pub mod Closing
use flagship_platform.Shared.{
  ℕ, suc, ◌+◌, Bool, true, false, not, ◌&&◌, ◌||◌, Option, none, some, List, [], ◌∷◌, ◌++◌,
  if◌then◌else◌, length, leb,
}
use flagship_platform.Shared.Int.{ℤ, pos}
use flagship_platform.Js.Text.{JsString, js}
use flagship_platform.Js.Number.{of_int}
use flagship_platform.Js.Host.{Host}
use flagship_platform.Js.Double.{Doubles}

pub record ExposureEvent : Type 0 where
  pub flag_key : JsString
  pub variation_key : JsString
  pub context_key : JsString
  pub ruleset_version : ℤ
  pub timestamp : JsString
  pub dedupe_key : JsString

-- What `record` is given.
pub record IncomingEvent : Type 0 where
  pub flag_key : JsString
  pub variation_key : JsString
  pub context_key : JsString
  pub ruleset_version : ℤ
  pub timestamp : Option JsString
  pub dedupe_key : Option JsString

pub record Buffer : Type 0 where
  pub queue : List ExposureEvent
  -- whether the interval timer is set
  pub timer : Bool
  pub closed : Bool
  pub flush_in_flight : Bool
  -- the events that the suspended `flush` waits for; [] if there is none
  pub batch : List ExposureEvent
  pub sequence : ℕ
  pub recorded : ℕ
  pub dropped : ℕ
  pub sampled : ℕ
  pub sent : ℕ
  pub failed : ℕ

abbrev pub new_buffer : Buffer
new_buffer = record {
  queue = [];
  timer = false;
  closed = false;
  flush_in_flight = false;
  batch = [];
  sequence = 0;
  recorded = 0;
  dropped = 0;
  sampled = 0;
  sent = 0;
  failed = 0;
}

unfoldable pub start : Buffer → Buffer
start b = if b.timer || b.closed then b else record b { timer = true }

abbrev pub is_empty : List ExposureEvent → Bool
is_empty [] = true
is_empty (e ∷ es) = false

-- `flush` up to its `await`.
unfoldable pub flush : Buffer → Buffer
flush b =
    if b.flush_in_flight || is_empty b.queue
    then b
    else record b { flush_in_flight = true; batch = b.queue; queue = [] }

-- `flush` from its `await`: the transport has accepted the batch.
unfoldable pub transport_resolved : Buffer → Buffer
transport_resolved b = record b {
  sent = b.sent + length b.batch;
  flush_in_flight = false;
  batch = [];
}

-- The transport has rejected it. `onError` is called, and what it throws goes no further.
unfoldable pub transport_rejected : Buffer → Buffer
transport_rejected b = record b {
  failed = b.failed + length b.batch;
  flush_in_flight = false;
  batch = [];
}

-- `close` up to its `await`.
unfoldable pub close : Buffer → Buffer
close b = flush (record b { closed = true; timer = false })

abbrev or_else : Option JsString → JsString → JsString
or_else none d = d
or_else (some s) d = s

module _ (D : Doubles) where
  open D use {Double, of_nat, div, sub, max_of, le, lt}

  pub record Options : Type 0 where
    pub batch_size : ℕ
    pub max_queue_size : ℕ
    pub sampling_threshold : Double

  -- get samplingRate
  unfoldable pub sampling_rate : Options → Buffer → Double
  sampling_rate options b =
      let occupancy = div (of_nat (length b.queue)) (of_nat options.max_queue_size) in
      let threshold = options.sampling_threshold in
      let overage = div (sub occupancy threshold) (sub (of_nat 1) threshold) in
      if le occupancy threshold then of_nat 1 else max_of (of_nat 0) (sub (of_nat 1) overage)

  module _ (host : Host) (options : Options) where
    dedupe_key_of : IncomingEvent → (sequence : ℕ) → JsString
    dedupe_key_of event sequence =
        event.context_key
        ++ (js ":"
            ++ (event.flag_key
                ++ (js ":"
                    ++ (host.number_to_string (of_int event.ruleset_version)
                        ++ (js ":" ++ host.number_to_string (of_int (pos sequence)))))))

    event_of : IncomingEvent → (now : JsString) → (sequence : ℕ) → ExposureEvent
    event_of event now sequence = record {
      flag_key = event.flag_key;
      variation_key = event.variation_key;
      context_key = event.context_key;
      ruleset_version = event.ruleset_version;
      timestamp = or_else event.timestamp now;
      dedupe_key = or_else event.dedupe_key (dedupe_key_of event sequence);
    }

    -- The end of `record`: the event is queued, and a full batch is flushed.
    unfoldable pub enqueue : Buffer → ExposureEvent → Buffer
    enqueue b event =
        let b' = record b {
          sequence = b.sequence + 1;
          queue = b.queue ++ event ∷ [];
          recorded = b.recorded + 1;
        } in
        if leb options.batch_size (length b'.queue) then flush b' else b'

    -- `record`, with the draw of `Math.random()` and the current time as text.
    unfoldable pub record_event :
        Buffer → IncomingEvent → (draw : Double) → (now : JsString) → Buffer × Bool
    unfolding event_of dedupe_key_of
    record_event b event draw now =
        let rate = sampling_rate options b in
        if b.closed
        then (b, false)
        else if leb options.max_queue_size (length b.queue)
        then (record b { dropped = b.dropped + 1 }, false)
        else if lt rate (of_nat 1) && le rate draw
        then (record b { sampled = b.sampled + 1 }, false)
        else (enqueue b (event_of event now (b.sequence + 1)), true)
