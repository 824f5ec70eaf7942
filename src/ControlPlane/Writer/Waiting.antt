-- ===== src/ControlPlane/Writer/Waiting.antt =====
-- apps/control-plane/src/exposures.ts: what holds of the writer and of its `drain` after each event.
use flagship_platform.Shared.{
  ℕ, zero, suc, ◌+◌, ◌-◌, ◌≤◌, ◌≡◌, refl, Bool, List, [], ◌∷◌, ◌++◌, arith, length, ltb, leb,
  Bool-cases, inl, inr, if◌then◌else◌,
}
use flagship_platform.ControlPlane.Batch.{ExposureRow}
use flagship_platform.ControlPlane.Writer.{
  Writer, enqueue, without, settle, Draining, waiting, returned, next_wave, WriterEvent, arrives,
  settles, resumes, wave_after, resume, on_writer_event, on_writer_events,
}
use flagship_platform.ControlPlane.Writer.Backpressure.{
  IsBounded, enqueue-IsBounded, settle-IsBounded,
}

-- A wave is of writes in flight, and `drain` has returned only with none in flight.
abbrev pub IsWave : (max first : ℕ) → Writer → Draining → Type 0
IsWave max first w (waiting unsettled) = unsettled ≤ length w.in_flight
IsWave max first w (returned v) = IsBounded max v × (length v.in_flight ≡ 0) × (first ≤ v.accepted)

-- The writer and its `drain`, which was called when `first` rows had been accepted.
pub record IsDraining (max first : ℕ) (w : Writer) (d : Draining) : Type 0 where
  pub bounded : IsBounded max w
  pub grown : first ≤ w.accepted
  pub wave : IsWave max first w d

pub next_wave-IsWave :
    (max first : ℕ) (w : Writer)
    → IsBounded max w
    → first ≤ w.accepted
    → IsWave max first w (next_wave w)
unfolding next_wave
next_wave-IsWave max first w h grown = elim (Bool-cases (leb (length w.in_flight) 0)) [
  | inl none_left ↦ rw none_left (h, ground arith, grown)
  | inr some_left ↦ rw some_left (omega arith)
]

length-append_one :
    (writes : List (List ExposureRow)) (rows : List ExposureRow)
    → length (writes ++ rows ∷ []) ≡ length writes + 1
length-append_one [] rows = refl
length-append_one (w ∷ ws) rows = omega (arith, length-append_one ws rows)

enqueue-grows :
    (max : ℕ) (w : Writer) (rows : List ExposureRow)
    → (w.accepted ≤ (enqueue max w rows).0.accepted)
      × (length w.in_flight ≤ length (enqueue max w rows).0.in_flight)
unfolding enqueue
enqueue-grows max w [] = (omega arith, omega arith)
enqueue-grows max w (row ∷ rows) =
    elim (Bool-cases (ltb max (w.in_flight_rows + length (row ∷ rows)))) [
      | inl full ↦ rw full (omega arith, omega arith)
      | inr room ↦ rw room (omega arith, omega (arith, length-append_one w.in_flight (row ∷ rows)))
    ]

-- A write that is in flight is taken out.
length-without :
    (writes : List (List ExposureRow)) (i : ℕ)
    → length (without writes i)
      ≡ (if ltb i (length writes) then length writes - 1 else length writes)
unfolding without
length-without [] i = ground arith
length-without (w ∷ ws) zero = ground arith
length-without (w ∷ ws) (suc i) = ground (arith, length-without ws i)

pub settle-length :
    (w : Writer) (i : ℕ) (is_written : Bool)
    → ((settle w i is_written).accepted ≡ w.accepted)
      × (length (settle w i is_written).in_flight
          ≡ (if ltb i (length w.in_flight) then length w.in_flight - 1 else length w.in_flight))
unfolding settle
settle-length w i is_written = (refl, length-without w.in_flight i)

wave_after-IsWave :
    (max first : ℕ) (w : Writer) (i : ℕ) (is_written : Bool) (d : Draining)
    → IsWave max first w d
    → IsWave max first (settle w i is_written) (wave_after i d)
unfolding wave_after
wave_after-IsWave max first w i is_written (waiting unsettled) h =
    let fewer = (settle-length w i is_written).1 in ground (arith, fewer, h)
wave_after-IsWave max first w i is_written (returned v) h = h

enqueue-IsWave :
    (max first : ℕ) (w : Writer) (rows : List ExposureRow) (d : Draining)
    → IsWave max first w d
    → IsWave max first (enqueue max w rows).0 d
enqueue-IsWave max first w rows (waiting unsettled) h =
    omega (arith, h, (enqueue-grows max w rows).1)
enqueue-IsWave max first w rows (returned v) h = h

resume-IsWave :
    (max first : ℕ) (w : Writer) (d : Draining)
    → IsDraining max first w d
    → IsWave max first w (resume w d)
unfolding resume
resume-IsWave max first w (waiting zero) h = next_wave-IsWave max first w h.bounded h.grown
resume-IsWave max first w (waiting (suc unsettled)) h = h.wave
resume-IsWave max first w (returned v) h = h.wave

pub on_writer_event-IsDraining :
    (max first : ℕ) (e : WriterEvent) (w : Writer) (d : Draining)
    → IsDraining max first w d
    → IsDraining max first (on_writer_event max e (w, d)).0 (on_writer_event max e (w, d)).1
unfolding on_writer_event
on_writer_event-IsDraining max first (arrives rows) w d h = record {
  bounded = enqueue-IsBounded max w rows h.bounded;
  grown = omega (arith, h.grown, (enqueue-grows max w rows).0);
  wave = enqueue-IsWave max first w rows d h.wave;
}
on_writer_event-IsDraining max first (settles i is_written) w d h = record {
  bounded = settle-IsBounded max w i is_written h.bounded;
  grown = omega (arith, h.grown, (settle-length w i is_written).0);
  wave = wave_after-IsWave max first w i is_written d h.wave;
}
on_writer_event-IsDraining max first resumes w d h = record {
  bounded = h.bounded;
  grown = h.grown;
  wave = resume-IsWave max first w d h;
}

pub on_writer_events-IsDraining :
    (max first : ℕ) (es : List WriterEvent) (w : Writer) (d : Draining)
    → IsDraining max first w d
    → IsDraining max first (on_writer_events max es (w, d)).0 (on_writer_events max es (w, d)).1
unfolding on_writer_events
on_writer_events-IsDraining max first [] w d h = h
on_writer_events-IsDraining max first (e ∷ es) w d h =
    on_writer_events-IsDraining max first es (on_writer_event max e (w, d)).0
      (on_writer_event max e (w, d)).1 (on_writer_event-IsDraining max first e w d h)
