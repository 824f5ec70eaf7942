-- ===== src/Sdk/Exposure/Accounting.antt =====
-- What the counters of the exposure buffer add up to, after any sequence of its operations.
use flagship_platform.Shared.{
  if◌then◌else◌, ℕ, ◌+◌, ◌≤◌, ◌<◌, ◌≡◌, refl, ap, ◌&&◌, ◌||◌, Bool, true, false, arith, length,
  length-append, leb, Bool-cases, inl, inr, [], ◌∷◌, ◌++◌,
}
use flagship_platform.Js.Text.{JsString}
use flagship_platform.Js.Host.{Host}
use flagship_platform.Js.Double.{Doubles}
use flagship_platform.Sdk.Exposure.{
  ExposureEvent, IncomingEvent, Buffer, new_buffer, is_empty, start, flush, transport_resolved,
  transport_rejected, close, Options, enqueue, record_event, sampling_rate,
}

-- One call that reaches the buffer. The transport answers only while a flush waits for it.
pub data Step (D : Doubles) (host : Host) (options : Options D) : Buffer → Buffer → Type 0 where
  recording :
      {b : Buffer} (event : IncomingEvent) (draw : D.Double) (now : JsString)
      → Step D host options b (record_event D host options b event draw now).0
  starting : {b : Buffer} → Step D host options b (start b)
  flushing : {b : Buffer} → Step D host options b (flush b)
  resolving : {b : Buffer} → b.flush_in_flight ≡ true → Step D host options b (transport_resolved b)
  rejecting : {b : Buffer} → b.flush_in_flight ≡ true → Step D host options b (transport_rejected b)
  closing : {b : Buffer} → Step D host options b (close b)

-- A state of the buffer after some calls.
pub data Reach (D : Doubles) (host : Host) (options : Options D) : Buffer → Type 0 where
  at_first : Reach D host options new_buffer
  after : {b c : Buffer} → Reach D host options b → Step D host options b c → Reach D host options c

-- Every recorded event was sent, was lost with its batch, is with the transport or is queued.
abbrev pub IsAccounted : ℕ → Buffer → Type 0
IsAccounted max_queue_size b =
    (b.recorded ≡ b.sent + b.failed + length b.batch + length b.queue)
    × (b.sequence ≡ b.recorded)
    × (length b.queue ≤ max_queue_size)
    × (b.flush_in_flight ≡ false → b.batch ≡ [])
    × (b.closed ≡ true → b.timer ≡ false)

flush-IsAccounted : (m : ℕ) (b : Buffer) → IsAccounted m b → IsAccounted m (flush b)
unfolding flush
flush-IsAccounted m b (sum, seq, room, idle, off) =
    elim (Bool-cases (b.flush_in_flight || is_empty b.queue)) [
      | inl nothing ↦ rw nothing (sum, seq, room, idle, off)
      | inr sends ↦
          let none_sent : length b.batch ≡ 0 = ap length (idle (ground arith)) in
          rw sends (omega arith, seq, omega arith, λ e. ground arith, off)
    ]

enqueue-IsAccounted :
    (D : Doubles) (host : Host) (options : Options D) (b : Buffer) (e : ExposureEvent)
    → IsAccounted options.max_queue_size b
    → length b.queue < options.max_queue_size
    → IsAccounted options.max_queue_size (enqueue D host options b e)
unfolding enqueue
enqueue-IsAccounted D host options b e (sum, seq, room, idle, off) below =
    let queued : IsAccounted options.max_queue_size (record b {
      sequence = b.sequence + 1;
      queue = b.queue ++ e ∷ [];
      recorded = b.recorded + 1;
    }) =
      (
        omega (arith, length-append b.queue (e ∷ [])),
        omega arith,
        omega (arith, length-append b.queue (e ∷ [])),
        idle,
        off,
      ) in
    elim (Bool-cases (leb options.batch_size (length (b.queue ++ e ∷ [])))) [
      | inl full ↦ rw full (flush-IsAccounted options.max_queue_size _ queued)
      | inr waiting ↦ rw waiting queued
    ]

if-IsAccounted :
    (m : ℕ) (test : Bool) (x y : Buffer × Bool)
    → (test ≡ true → IsAccounted m x.0)
    → (test ≡ false → IsAccounted m y.0)
    → IsAccounted m (if test then x else y).0
if-IsAccounted m true x y one other = one refl
if-IsAccounted m false x y one other = other refl

record-IsAccounted :
    (D : Doubles) (host : Host) (options : Options D) (b : Buffer) (event : IncomingEvent)
    (draw : D.Double) (now : JsString)
    → IsAccounted options.max_queue_size b
    → IsAccounted options.max_queue_size (record_event D host options b event draw now).0
unfolding record_event
record-IsAccounted D host options b event draw now h =
    if-IsAccounted m b.closed _ _ (λ _. h)
      (λ _.
        if-IsAccounted m (leb m (length b.queue)) _ _ (λ _. h)
          (λ room.
            if-IsAccounted m (D.lt rate (D.of_nat 1) && D.le rate draw) _ _ (λ _. h)
              (λ _. enqueue-IsAccounted D host options b _ h (not_full room))))
  where
    rate : D.Double
    rate = sampling_rate D options b

    m : ℕ
    m = options.max_queue_size

    not_full :
        leb options.max_queue_size (length b.queue) ≡ false
        → length b.queue < options.max_queue_size
    not_full room = ground arith

Step-IsAccounted :
    {D : Doubles} {host : Host} {options : Options D} {b c : Buffer}
    → Step D host options b c
    → IsAccounted options.max_queue_size b
    → IsAccounted options.max_queue_size c
unfolding start transport_resolved transport_rejected close
Step-IsAccounted {D} {host} {options} {b} (recording event draw now) h =
    record-IsAccounted D host options b event draw now h
Step-IsAccounted {b} starting (sum, seq, room, idle, off) =
    elim (Bool-cases (b.timer || b.closed)) [
      | inl _ ↦ ground arith
      | inr idle_now ↦ rw idle_now (sum, seq, room, idle, λ e. ground arith)
    ]
Step-IsAccounted {options} {b} flushing h = flush-IsAccounted options.max_queue_size b h
Step-IsAccounted (resolving flying) (sum, seq, room, idle, off) =
    (omega arith, seq, room, λ _. refl, off)
Step-IsAccounted (rejecting flying) (sum, seq, room, idle, off) =
    (omega arith, seq, room, λ _. refl, off)
Step-IsAccounted {options} {b} closing (sum, seq, room, idle, off) =
    flush-IsAccounted options.max_queue_size (record b { closed = true; timer = false })
      (sum, seq, room, idle, λ _. refl)

-- In every state that the buffer reaches, with any transport, any draws and any order of calls:
-- the recorded events are the sent ones, the failed ones, those with the transport and the queued
-- ones; the sequence number counts the recorded ones; the queue is no longer than its bound; a
-- batch is held only by a flush in flight; and a closed buffer has no timer.
pub Reach-IsAccounted :
    {D : Doubles} {host : Host} {options : Options D} {b : Buffer}
    → Reach D host options b
    → IsAccounted options.max_queue_size b
Reach-IsAccounted at_first = (refl, refl, omega arith, λ _. refl, λ _. refl)
Reach-IsAccounted (after r s) = Step-IsAccounted s (Reach-IsAccounted r)
