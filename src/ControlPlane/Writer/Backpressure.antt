-- ===== src/ControlPlane/Writer/Backpressure.antt =====
-- What the counters of the writer add up to, and the bound on what is in flight.
use flagship_platform.Shared.{
  ℕ, zero, suc, ◌+◌, ◌≤◌, ◌<◌, ◌≡◌, refl, Bool, true, false, List, [], ◌∷◌, ◌++◌, arith, length,
  ltb, Bool-cases, inl, inr,
}
use flagship_platform.ControlPlane.Batch.{ExposureRow}
use flagship_platform.ControlPlane.Writer.{Writer, new_writer, enqueue, write_at, without, settle}

-- The rows of all writes.
unfoldable pub rows_in : List (List ExposureRow) → ℕ
rows_in [] = 0
rows_in (rows ∷ writes) = length rows + rows_in writes

rows_in-append :
    (writes : List (List ExposureRow)) (rows : List ExposureRow)
    → rows_in (writes ++ rows ∷ []) ≡ rows_in writes + length rows
unfolding rows_in
rows_in-append [] rows = omega arith
rows_in-append (w ∷ ws) rows = omega (arith, rows_in-append ws rows)

rows_in-without :
    (writes : List (List ExposureRow)) (i : ℕ)
    → rows_in (without writes i) + length (write_at writes i) ≡ rows_in writes
unfolding rows_in without write_at
rows_in-without [] i = omega arith
rows_in-without (w ∷ ws) zero = omega arith
rows_in-without (w ∷ ws) (suc i) = omega (arith, rows_in-without ws i)

-- One event of the writer: a batch arrives, or a write in flight settles.
pub data Step (max : ℕ) : Writer → Writer → Type 0 where
  arriving : {w : Writer} (rows : List ExposureRow) → Step max w (enqueue max w rows).0
  settling :
      {w : Writer} (i : ℕ) (is_written : Bool)
      → i < length w.in_flight
      → Step max w (settle w i is_written)

pub data Reach (max : ℕ) : Writer → Type 0 where
  at_first : Reach max new_writer
  after : {w v : Writer} → Reach max w → Step max w v → Reach max v

-- The counter is the number of rows in flight, it is within the bound, and every accepted row was
-- written, was lost with its batch or is in flight.
pub record IsBounded (max : ℕ) (w : Writer) : Type 0 where
  pub counted : w.in_flight_rows ≡ rows_in w.in_flight
  pub bounded : w.in_flight_rows ≤ max
  pub accounted : w.accepted ≡ w.written + w.failed + w.in_flight_rows

pub enqueue-IsBounded :
    (max : ℕ) (w : Writer) (rows : List ExposureRow)
    → IsBounded max w
    → IsBounded max (enqueue max w rows).0
unfolding enqueue
enqueue-IsBounded max w [] h = h
enqueue-IsBounded max w (row ∷ rows) h =
    let sum = rows_in-append w.in_flight (row ∷ rows) in
    elim (Bool-cases (ltb max (w.in_flight_rows + length (row ∷ rows)))) [
      | inl full ↦
          rw full (record { counted = h.counted; bounded = h.bounded; accounted = h.accounted })
      | inr room ↦ rw room (record {
        counted = omega (arith, h.counted, sum);
        bounded = ground (arith, room);
        accounted = omega (arith, h.accounted);
      })
    ]

pub settle-IsBounded :
    (max : ℕ) (w : Writer) (i : ℕ) (is_written : Bool)
    → IsBounded max w
    → IsBounded max (settle w i is_written)
unfolding settle
settle-IsBounded max w i true h =
    let sum = rows_in-without w.in_flight i in
    record {
      counted = omega (arith, h.counted, sum);
      bounded = omega (arith, h.bounded);
      accounted = omega (arith, h.accounted, h.counted, sum);
    }
settle-IsBounded max w i false h =
    let sum = rows_in-without w.in_flight i in
    record {
      counted = omega (arith, h.counted, sum);
      bounded = omega (arith, h.bounded);
      accounted = omega (arith, h.accounted, h.counted, sum);
    }

-- In every state that the writer reaches, whatever batches arrive and in whatever order the writes
-- settle: the rows in flight are counted exactly and are within the bound, and every accepted row
-- was written, failed or is in flight.
pub Reach-IsBounded : {max : ℕ} {w : Writer} → Reach max w → IsBounded max w
Reach-IsBounded {max} at_first = record {
  counted = unfold rows_in in refl;
  bounded = omega arith;
  accounted = omega arith;
}
Reach-IsBounded {max} (after {w} r (arriving rows)) =
    enqueue-IsBounded max w rows (Reach-IsBounded r)
Reach-IsBounded {max} (after {w} r (settling i is_written here)) =
    settle-IsBounded max w i is_written (Reach-IsBounded r)
