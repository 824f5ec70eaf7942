-- ===== src/ControlPlane/Writer/Examples.antt =====
-- A writer with a batch settled and one refused.
use flagship_platform.Shared.{◌≡◌, refl, true, false, ◌+◌, ◌≤◌, List, [], ◌∷◌, arith, length}
use flagship_platform.Js.Text.{js}
use flagship_platform.Js.Number.{of_nat}
use flagship_platform.ControlPlane.Batch.{ExposureRow}
use flagship_platform.ControlPlane.Writer.{
  Writer, new_writer, enqueue, settle, without, stats, waiting, returned, next_wave, WriterEvent,
  arrives, settles, resumes, wave_after, resume, on_writer_event, on_writer_events, Settling, drain,
}
use flagship_platform.ControlPlane.Writer.Waves.{drain-settled}
use flagship_platform.ControlPlane.Writer.Backpressure.{
  at_first, after, arriving, settling, IsBounded, Reach-IsBounded,
}

abbrev row : ExposureRow
row = record {
  tenant_id = js "t1";
  environment_key = js "prod";
  flag_key = js "checkout";
  variation_key = js "on";
  context_key = js "u1";
  ruleset_version = of_nat 3;
  timestamp = js "1970-01-01 00:00:00.000";
  dedupe_key = js "u1:checkout:3:1";
}

abbrev busy : Writer
busy = (enqueue 3 (enqueue 3 new_writer (row ∷ row ∷ [])).0 (row ∷ row ∷ [])).0

-- The second batch does not fit.
busy_counts : (busy.accepted ≡ 2) × (busy.refused ≡ 2) × (length busy.in_flight ≡ 1)
unfolding enqueue
busy_counts = (refl, refl, refl)

abbrev settled : Writer
settled = settle busy 0 true

Reach-IsBounded_example : IsBounded 3 settled
Reach-IsBounded_example = Reach-IsBounded (
    after (after (after at_first (arriving (row ∷ row ∷ []))) (arriving (row ∷ row ∷ [])))
      (settling 0 true (omega (arith, busy_counts.2))))

-- While `drain` waits for the first write, another batch arrives, so that it waits for a second wave.
abbrev while_draining : List WriterEvent
while_draining = arrives (row ∷ []) ∷ settles 0 true ∷ resumes ∷ []

abbrev losing : Settling
losing w = (0, false)

second_wave : (on_writer_events 3 while_draining (busy, next_wave busy)).1 ≡ waiting 1
unfolding on_writer_events on_writer_event next_wave resume wave_after enqueue settle without
second_wave = refl

drain-settled_example :
    (v : Writer) × (drain 3 while_draining losing busy ≡ returned v)
    × (v.in_flight ≡ [])
    × ((stats v).in_flight_rows ≡ 0)
    × (busy.accepted ≤ (stats v).accepted)
    × ((stats v).written + (stats v).failed ≡ (stats v).accepted)
drain-settled_example =
    drain-settled {max = 3} {w = busy} while_draining losing
      (after (after at_first (arriving (row ∷ row ∷ []))) (arriving (row ∷ row ∷ [])))
