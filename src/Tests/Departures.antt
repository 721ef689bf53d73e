-- ===== src/Tests/Departures.antt =====
-- Clients that go.
use dracd.Common.{refl, true, false}
use dracd.Vnc.Writer
use dracd.Vnc.Writer.{Pipeline, stopping}
use dracd.Disconnect.{
  at_stop, at_teardown, gone, Link, joined, ends, signals, tears_down, Reach, here, next, Crashes,
}
use dracd.Disconnect.Crash.{going-Crashes}
use dracd.Disconnect.Quiet.{gone_safe}

abbrev stopping_writers : Pipeline
stopping_writers = record Writer.start { phase = stopping }

going-Crashes_example : (m : Link) × Reach (record joined { main = at_stop }) m × Crashes m
going-Crashes_example = going-Crashes (record joined { main = at_stop }) refl refl (λ h. h) 4

abbrev stopped_link : Link
stopped_link = record joined { main = at_teardown; writers = stopping_writers }

abbrev quiet : Link
quiet = record stopped_link { main = gone; listed = false; channel_closed = true }

quiet-Reach : Reach joined quiet
unfolding Writer.step
quiet-Reach =
    next
      (next (next here (ends joined refl))
        (signals (record joined { main = at_stop }) stopping_writers refl refl))
      (tears_down stopped_link refl)

gone_safe_example : ¬ Crashes quiet
gone_safe_example = gone_safe quiet quiet quiet-Reach refl tt refl here
