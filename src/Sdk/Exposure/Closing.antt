-- ===== src/Sdk/Exposure/Closing.antt =====
-- What `close` of the exposure buffer promises.
use flagship_platform.Shared.{
  if◌then◌else◌, ap, ◌∷◌, sym, subst, List, ℕ, ◌+◌, ◌≡◌, refl, Bool, true, false, ◌||◌, arith,
  length, Bool-cases, inl, inr, [],
}
use flagship_platform.Js.Text.{JsString}
use flagship_platform.Js.Host.{Host}
use flagship_platform.Js.Double.{Doubles}
use flagship_platform.Sdk.Exposure.{
  ExposureEvent, Buffer, IncomingEvent, is_empty, start, flush, transport_resolved,
  transport_rejected, close, Options, record_event,
}
use flagship_platform.Sdk.Exposure.Accounting.{
  Step, Reach, Reach-IsAccounted, IsAccounted, recording, starting, flushing, resolving, rejecting,
  closing,
}

-- Any number of calls, from one state to another.
pub data Steps (D : Doubles) (host : Host) (options : Options D) : Buffer → Buffer → Type 0 where
  none_yet : {b : Buffer} → Steps D host options b b
  then_one :
      {a b c : Buffer}
      → Steps D host options a b
      → Step D host options b c
      → Steps D host options a c

-- Nothing is recorded between two states, and the second is closed, with no timer.
abbrev pub IsShut : Buffer → Buffer → Type 0
IsShut b c =
    (c.closed ≡ true)
    × (c.timer ≡ false)
    × (c.recorded ≡ b.recorded)
    × (c.dropped ≡ b.dropped)
    × (c.sampled ≡ b.sampled)

flush-IsShut : (a b : Buffer) → IsShut a b → IsShut a (flush b)
unfolding flush
flush-IsShut a b h = elim (Bool-cases (b.flush_in_flight || is_empty b.queue)) [
  | inl nothing ↦ rw nothing h
  | inr sends ↦ rw sends h
]

if-of_true : {A : Type 0} (test : Bool) (x y : A) → test ≡ true → (if test then x else y) ≡ x
if-of_true true x y e = refl
if-of_true false x y e = ground arith

record-closed :
    (D : Doubles) (host : Host) (options : Options D) (b : Buffer) (event : IncomingEvent)
    (draw : D.Double) (now : JsString)
    → b.closed ≡ true
    → record_event D host options b event draw now ≡ (b, false)
unfolding record_event
record-closed D host options b event draw now closed = if-of_true b.closed _ _ closed

Step-IsShut :
    {D : Doubles} {host : Host} {options : Options D} (a : Buffer) {b c : Buffer}
    → Step D host options b c
    → IsShut a b
    → IsShut a c
unfolding start transport_resolved transport_rejected close
Step-IsShut {D} {host} {options} a {b} (recording event draw now) (closed, idle, r, d, s) =
    subst (λ p. IsShut a p.0) (sym (record-closed D host options b event draw now closed))
      (closed, idle, r, d, s)
Step-IsShut a {b} starting (closed, idle, r, d, s) =
    subst (λ c. IsShut a c)
      (sym (if-of_true (b.timer || b.closed) b (record b { timer = true }) (ground arith)))
      (closed, idle, r, d, s)
Step-IsShut a {b} flushing h = flush-IsShut a b h
Step-IsShut a (resolving flying) h = h
Step-IsShut a (rejecting flying) h = h
Step-IsShut a {b} closing (_, _, r, d, s) =
    flush-IsShut a (record b { closed = true; timer = false }) (refl, refl, r, d, s)

-- From a closed buffer without a timer, no sequence of calls opens the buffer, sets the timer or
-- counts an event as recorded, dropped or sampled out.
pub closed-IsShut :
    {D : Doubles} {host : Host} {options : Options D} {b c : Buffer}
    → Steps D host options b c
    → b.closed ≡ true
    → b.timer ≡ false
    → IsShut b c
closed-IsShut none_yet closed idle = (closed, idle, refl, refl, refl)
closed-IsShut {b} (then_one r s) closed idle = Step-IsShut b s (closed-IsShut r closed idle)

close-flying :
    (b : Buffer) → b.flush_in_flight ≡ true → (transport_resolved (close b)).queue ≡ b.queue
unfolding close flush transport_resolved
close-flying b flying = rw flying refl

is_empty-nil : (q : List ExposureEvent) → is_empty q ≡ true → q ≡ []
is_empty-nil [] e = refl
is_empty-nil (x ∷ xs) e = ground arith

close-resting :
    (m : ℕ) (b : Buffer)
    → IsAccounted m b
    → b.flush_in_flight ≡ false
    → ((transport_resolved (close b)).queue ≡ [])
      × (b.recorded ≡ (transport_resolved (close b)).sent + b.failed)
unfolding close flush transport_resolved
close-resting m b (sum, _, _, idle, _) resting = elim (Bool-cases (is_empty b.queue)) [
  | inl empty ↦
      let no_queue : b.queue ≡ [] = is_empty-nil b.queue empty in
      rw (resting, empty) (no_queue, omega (arith, sum, ap length no_queue))
  | inr sends ↦ rw (resting, sends) (refl, omega (arith, sum, ap length (idle resting)))
]

-- In a state that the buffer reaches, `close` and then the transport's acceptance of what is in
-- flight: if no flush was in flight, the queue is empty and every recorded event was sent or had
-- failed before; if one was in flight, the queue is what it was.
pub close-outcome :
    {D : Doubles} {host : Host} {options : Options D} {b : Buffer}
    → Reach D host options b
    → (b.flush_in_flight ≡ false
        → ((transport_resolved (close b)).queue ≡ [])
          × (b.recorded ≡ (transport_resolved (close b)).sent + b.failed))
      × (b.flush_in_flight ≡ true → (transport_resolved (close b)).queue ≡ b.queue)
close-outcome {options} {b} r =
    (close-resting options.max_queue_size b (Reach-IsAccounted r), close-flying b)
