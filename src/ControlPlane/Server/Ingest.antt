-- ===== src/ControlPlane/Server/Ingest.antt =====
-- apps/control-plane/src/server.ts with apps/control-plane/src/exposures.ts: what the exposure route
-- makes of a batch.
use flagship_platform.Shared.{
  ◌≡◌, refl, ◌≢◌, ◌⊎◌, inl, inr, ℕ, ◌+◌, ◌≤◌, true, false, List, [], ◌∷◌, length, ltb, arith,
  flatten, ◌++◌, append-nil, append_assoc, sym, ap, ◌∙◌, Bool-cases,
}
use flagship_platform.Shared.Int.{ℤ, pos}
use flagship_platform.Js.Value.{JsValue, Items}
use flagship_platform.ControlPlane.Batch.{
  Dates, classify, validate_from, AuthenticatedKey, ExposureRow, ValidationOutcome, validate_batch,
}
use flagship_platform.ControlPlane.Batch.Partition.{validate_batch-partition, classify-cases}
use flagship_platform.ControlPlane.Writer.{Writer, enqueue}
use flagship_platform.ControlPlane.Server.{Reply, Settings, Supply, tally}
use flagship_platform.ControlPlane.Server.Sdk.{max_batch_size, list_of, ingest, ingest_events}

module _ (dates : Dates) (scope : AuthenticatedKey) (now : ℤ) where
  -- The rows of the valid events of a batch, in their order.
  unfoldable pub valid_rows : List JsValue → List ExposureRow
  valid_rows [] = []
  valid_rows (event ∷ events) = elim (classify dates scope now event) [
    | inl reason ↦ valid_rows events
    | inr row ↦ row ∷ valid_rows events
  ]

  validate_from-rows :
      (index : ℕ) (events : List JsValue)
      → (validate_from dates scope now index events).rows ≡ valid_rows events
  unfolding validate_from valid_rows
  validate_from-rows index [] = refl
  validate_from-rows index (event ∷ events) =
      let rest = validate_from-rows (index + 1) events in
      elim (classify-cases (classify dates scope now event)) [
        | inl (reason, bad) ↦ rw (bad, validate_from, valid_rows) rest
        | inr (row, good) ↦ rw (good, validate_from, valid_rows) (ap (λ rows. row ∷ rows) rest)
      ]

-- The events of a posted value; a value that is no array has none.
abbrev pub events_of : JsValue → List JsValue
events_of (JsValue.array items) = list_of items
events_of _ = []

-- A batch that was taken: the writer has the rows of its valid events, in their order and after the
-- rows that it had, and the answer tells how many events were valid and how many were not.
pub record IsTaken (settings : Settings) (supply : Supply) (scope : AuthenticatedKey)
    (value : JsValue) (before : Writer) (answer : Reply) (after : Writer) : Type 0 where
  pub status : answer.status ≡ 202
  pub rejected : ℕ
  pub rows : List ExposureRow
  pub valid : rows ≡ valid_rows settings.dates scope (pos supply.now) (events_of value)
  pub told : answer.body ≡ tally (length rows) rejected
  pub complete : length rows + rejected ≡ length (events_of value)
  pub small : length (events_of value) ≤ max_batch_size
  pub handed_over : flatten after.in_flight ≡ flatten before.in_flight ++ rows
  pub counted : after.accepted ≡ before.accepted + length rows
  pub held : after.in_flight_rows ≡ before.in_flight_rows + length rows

-- A batch that was not: the writer holds nothing more.
pub record IsShed (before : Writer) (answer : Reply) (after : Writer) : Type 0 where
  pub status : answer.status ≢ 202
  pub counted : after.accepted ≡ before.accepted
  pub same : after.in_flight ≡ before.in_flight
  pub held : after.in_flight_rows ≡ before.in_flight_rows

shed : (w : Writer) (answer : Reply) → answer.status ≢ 202 → IsShed w answer w
shed w answer other = record { status = other; counted = refl; same = refl; held = refl }

flatten-append :
    (writes : List (List ExposureRow)) (rows : List ExposureRow)
    → flatten (writes ++ rows ∷ []) ≡ flatten writes ++ rows
unfolding flatten
flatten-append [] rows = append-nil rows
flatten-append (write ∷ writes) rows =
    ap (λ rest. write ++ rest) (flatten-append writes rows)
    ∙ sym (append_assoc write (flatten writes) rows)

-- What `enqueue` answers and does.
enqueue-cases :
    (max : ℕ) (w : Writer) (rows : List ExposureRow)
    → (((enqueue max w rows).1 ≡ true)
        × ((enqueue max w rows).0.accepted ≡ w.accepted + length rows)
        × ((enqueue max w rows).0.in_flight_rows ≡ w.in_flight_rows + length rows)
        × (flatten (enqueue max w rows).0.in_flight ≡ flatten w.in_flight ++ rows))
      ⊎ (((enqueue max w rows).1 ≡ false)
          × ((enqueue max w rows).0.accepted ≡ w.accepted)
          × ((enqueue max w rows).0.in_flight ≡ w.in_flight)
          × ((enqueue max w rows).0.in_flight_rows ≡ w.in_flight_rows))
unfolding enqueue
enqueue-cases max w [] = inl (refl, omega arith, omega arith, sym (append-nil _))
enqueue-cases max w (row ∷ rows) =
    elim (Bool-cases (ltb max (w.in_flight_rows + length (row ∷ rows)))) [
      | inl full ↦ inr (rw full (refl, refl, refl, refl))
      | inr room ↦ inl (rw room (refl, refl, refl, flatten-append w.in_flight (row ∷ rows)))
    ]

module _ (settings : Settings) (supply : Supply) (scope : AuthenticatedKey) where
  abbrev outcome_of : List JsValue → ValidationOutcome
  outcome_of events = validate_batch settings.dates scope (pos supply.now) events

  ingest-IsTaken_or_IsShed :
      (items : Items) (w : Writer)
      → length (list_of items) ≤ max_batch_size
      → IsTaken settings supply scope
          (JsValue.array items)
          w
          (ingest settings supply scope (list_of items) w).0
          (ingest settings supply scope (list_of items) w).1
        ⊎ IsShed w
            (ingest settings supply scope (list_of items) w).0
            (ingest settings supply scope (list_of items) w).1
  unfolding ingest validate_batch
  ingest-IsTaken_or_IsShed items w small =
      let rows = (outcome_of (list_of items)).rows in
      elim (enqueue-cases settings.max_in_flight_rows w rows) [
        | inl (taken, counted, held, handed_over) ↦
            rw (ingest, taken)
              (inl (record {
                status = refl;
                rows = rows;
                valid = validate_from-rows settings.dates scope (pos supply.now) 0 (list_of items);
                handed_over = handed_over;
                rejected = length (outcome_of (list_of items)).rejected;
                told = refl;
                complete =
                    (validate_batch-partition settings.dates scope (pos supply.now)
                      (list_of items)).0;
                small = small;
                counted = counted;
                held = held;
              }))
        | inr (full, counted, same, held) ↦
            rw (ingest, full)
              (inr (record {
                status = λ e. ground (arith, e);
                counted = counted;
                same = same;
                held = held;
              }))
      ]

  -- A key that is authenticated, with a writer, posts any value. Either the answer is 202, the value is
  -- an array of at most 1000 events, the writer has taken the rows of just its valid events, in their
  -- order and behind those in flight, and the answer tells their number and that of the other events; or
  -- the answer has another status, and the writer has taken nothing.
  pub ingest_events-accounts :
      (value : JsValue) (w : Writer)
      → IsTaken settings supply scope value w
          (ingest_events settings supply scope value w).0
          (ingest_events settings supply scope value w).1
        ⊎ IsShed w
            (ingest_events settings supply scope value w).0
            (ingest_events settings supply scope value w).1
  unfolding ingest_events
  ingest_events-accounts (JsValue.array items) w =
      elim (Bool-cases (ltb max_batch_size (length (list_of items)))) [
        | inl large ↦ rw (ingest_events, large) (inr (shed w _ (λ e. ground (arith, e))))
        | inr fits ↦ rw (ingest_events, fits) (ingest-IsTaken_or_IsShed items w (ground arith))
      ]
  ingest_events-accounts JsValue.undefined w = inr (shed w _ (λ e. ground (arith, e)))
  ingest_events-accounts JsValue.null w = inr (shed w _ (λ e. ground (arith, e)))
  ingest_events-accounts (JsValue.boolean b) w = inr (shed w _ (λ e. ground (arith, e)))
  ingest_events-accounts (JsValue.number n) w = inr (shed w _ (λ e. ground (arith, e)))
  ingest_events-accounts (JsValue.string s) w = inr (shed w _ (λ e. ground (arith, e)))
  ingest_events-accounts (JsValue.object fields) w = inr (shed w _ (λ e. ground (arith, e)))
