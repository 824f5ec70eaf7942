-- ===== src/ControlPlane/Writer.antt =====
-- apps/control-plane/src/exposures.ts: `ExposureWriter`. A write that waits for the database is an
-- entry of `in_flight`, and its settling is a step of its own, which takes the callbacks of one
-- promise together.
pub mod Backpressure
pub mod Waiting
pub mod Waves
mod Examples
use flagship_platform.Shared.{
  ℕ, zero, suc, ◌+◌, ◌-◌, Bool, true, false, Option, none, some, List, [], ◌∷◌, ◌++◌, if◌then◌else◌,
  length, ltb, leb,
}
use flagship_platform.ControlPlane.Batch.{ExposureRow}

pub record Writer : Type 0 where
  pub in_flight : List (List ExposureRow)
  pub in_flight_rows : ℕ
  pub accepted : ℕ
  pub refused : ℕ
  pub written : ℕ
  pub failed : ℕ

abbrev pub new_writer : Writer
new_writer = record {
  in_flight = [];
  in_flight_rows = 0;
  accepted = 0;
  refused = 0;
  written = 0;
  failed = 0;
}

unfoldable pub enqueue : (max_in_flight_rows : ℕ) → Writer → List ExposureRow → Writer × Bool
enqueue max w [] = (w, true)
enqueue max w (row ∷ rows) =
    let n = length (row ∷ rows) in
    if ltb max (w.in_flight_rows + n) then (record w { refused = w.refused + n }, false) else (
      record w {
        in_flight_rows = w.in_flight_rows + n;
        accepted = w.accepted + n;
        in_flight = w.in_flight ++ (row ∷ rows) ∷ [];
      },
      true,
    )

-- The rows of a write in flight.
unfoldable pub write_at : List (List ExposureRow) → ℕ → List ExposureRow
write_at [] i = []
write_at (rows ∷ writes) zero = rows
write_at (rows ∷ writes) (suc i) = write_at writes i

-- this.#inFlight.delete(write)
unfoldable pub without : List (List ExposureRow) → ℕ → List (List ExposureRow)
without [] i = []
without (rows ∷ writes) zero = writes
without (rows ∷ writes) (suc i) = rows ∷ without writes i

-- The callbacks of the `i`th write: of `then` or of `catch`, and of `finally`.
unfoldable pub settle : Writer → (i : ℕ) → (is_written : Bool) → Writer
settle w i is_written =
    let n = length (write_at w.in_flight i) in
    record w {
      written = if is_written then w.written + n else w.written;
      failed = if is_written then w.failed else w.failed + n;
      in_flight_rows = w.in_flight_rows - n;
      in_flight = without w.in_flight i;
    }

pub record WriterStats : Type 0 where
  pub accepted : ℕ
  pub refused : ℕ
  pub written : ℕ
  pub failed : ℕ
  pub in_flight_rows : ℕ

unfoldable pub stats : Writer → WriterStats
stats w = record {
  accepted = w.accepted;
  refused = w.refused;
  written = w.written;
  failed = w.failed;
  in_flight_rows = w.in_flight_rows;
}

-- What `drain` does: it waits for the writes of a wave, of which some have not settled, or it has
-- returned, with the writer as it was then. A write is added behind the others, so those of the wave are the
-- first ones in flight.
pub data Draining : Type 0 where
  waiting : (unsettled : ℕ) → Draining
  returned : Writer → Draining

-- The test of the `while` and, when it holds, Promise.allSettled([...this.#inFlight]).
unfoldable pub next_wave : Writer → Draining
next_wave w = if leb (length w.in_flight) 0 then returned w else waiting (length w.in_flight)

-- What happens while `drain` runs: a batch arrives, a write settles, or `drain` goes on when its
-- wave has settled.
pub data WriterEvent : Type 0 where
  arrives : List ExposureRow → WriterEvent
  settles : (i : ℕ) → (is_written : Bool) → WriterEvent
  resumes : WriterEvent

unfoldable pub wave_after : (i : ℕ) → Draining → Draining
wave_after i (waiting unsettled) = waiting (if ltb i unsettled then unsettled - 1 else unsettled)
wave_after i (returned w) = returned w

unfoldable pub resume : Writer → Draining → Draining
resume w (waiting zero) = next_wave w
resume w (waiting (suc unsettled)) = waiting (suc unsettled)
resume w (returned v) = returned v

unfoldable pub on_writer_event :
    (max_in_flight_rows : ℕ) → WriterEvent → Writer × Draining → Writer × Draining
on_writer_event max (arrives rows) (w, d) = ((enqueue max w rows).0, d)
on_writer_event max (settles i is_written) (w, d) = (settle w i is_written, wave_after i d)
on_writer_event max resumes (w, d) = (w, resume w d)

unfoldable pub on_writer_events :
    (max_in_flight_rows : ℕ) → List WriterEvent → Writer × Draining → Writer × Draining
on_writer_events max [] state = state
on_writer_events max (e ∷ es) state = on_writer_events max es (on_writer_event max e state)

-- Which write settles next, and how.
abbrev pub Settling : Type 0
Settling = Writer → ℕ × Bool

unfoldable pub next_event : Settling → Writer × Draining → WriterEvent
next_event settling (w, waiting zero) = resumes
next_event settling (w, _) =
    let (i, is_written) = settling w in
    settles (if ltb i (length w.in_flight) then i else 0) is_written

-- No batch arrives any more, and the writes that are left settle.
unfoldable pub settle_rest :
    (fuel : ℕ) → (max_in_flight_rows : ℕ) → Settling → Writer × Draining → Writer × Draining
settle_rest zero max settling state = state
settle_rest (suc fuel) max settling state =
    settle_rest fuel max settling (on_writer_event max (next_event settling state) state)

-- `drain`, called on `w`, with what happens meanwhile. It takes at most two events for each write that is
-- left, and one more.
unfoldable pub drain : (max_in_flight_rows : ℕ) → List WriterEvent → Settling → Writer → Draining
drain max events settling w =
    let (w', d) = on_writer_events max events (w, next_wave w) in
    (settle_rest (length w'.in_flight + (length w'.in_flight + 1)) max settling (w', d)).1
