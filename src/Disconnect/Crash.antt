-- ===== src/Disconnect/Crash.antt =====
-- A frame that is on its way to a client whose writers have stopped.
use dracd.Vnc.Writer.Stopped.{
  nil_crashes, IsStopped, stops_moves, stopped_blocks, step-IsStopped, stops-IsStopped,
}
use dracd.Disconnect.{
  gone, at_teardown, at_stop, Link, Step, comes_to, hands_over, goes_on, ends, signals, panics,
  tears_down, takes_nil, Reach, here, next, Crashes, send_on_closed, nil_frame,
}
use dracd.Common.{
  arith, append-ne, ℕ, ◌≡◌, ◌≢◌, refl, List, [], ◌∷◌, ◌++◌, none, some, true, false, inl, inr,
  nil_dereference,
}
use dracd.Vnc.Writer
use dracd.Vnc.Writer.{Pipeline, arrives, moved}

-- The writers are past their loop, and someone stands at the send.
pub record Stuck (l : Link) : Type 0 where
  pub stopped : IsStopped l.writers.phase
  pub waits : l.sending ≢ []

not_handed :
    (l : Link) (f : ℕ) (q : Pipeline)
    → IsStopped l.writers.phase
    → Writer.step l.writers (arrives (some f)) ≢ moved q
not_handed l f q h m = cc (stopped_blocks l.writers (some f) h)

Step-Stuck : {l m : Link} → Step l m → Stuck l → Stuck m
Step-Stuck (comes_to l f listed) h = ground (arith, h.stopped, append-ne l.sending f)
Step-Stuck (hands_over l front back f q e open_ m) h = absurd (not_handed l f q h.stopped m)
Step-Stuck (goes_on l e q own m) h =
    ground (arith, step-IsStopped l.writers q e h.stopped m, h.waits)
Step-Stuck (ends l e) h = ground (arith, h.stopped, h.waits)
Step-Stuck (signals l q e m) h = ground (arith, stops-IsStopped l.writers q m, h.waits)
Step-Stuck (panics l e) h = ground (arith, h.stopped, h.waits)
Step-Stuck (tears_down l e) h = ground (arith, h.stopped, h.waits)
Step-Stuck (takes_nil l q e m) h =
    ground (arith, step-IsStopped l.writers q (arrives none) h.stopped m, h.waits)

Reach-Stuck : {l m : Link} → Stuck l → Reach l m → Stuck m
Reach-Stuck h here = h
Reach-Stuck h (next r st) = Step-Stuck st (Reach-Stuck h r)

crash :
    (l : Link) (sending : List ℕ)
    → l.sending ≡ sending
    → sending ≢ []
    → l.channel_closed ≡ true
    → Crashes l
crash l [] e ne c = absurd (ne refl)
crash l (f ∷ fs) e ne c = send_on_closed f fs c e

-- Once the writers of a client have taken the stop signal while a goroutine of the session stands at the send
-- of a frame to it, that send never succeeds, whatever happens then: when teardownDracClient has closed the
-- channel, someone still stands at the send, and the program crashes.
stopped_send-Crashes :
    (l m : Link) → Stuck l → Reach l m → m.channel_closed ≡ true → Stuck m × Crashes m
stopped_send-Crashes l m h r closed =
    let stuck = Reach-Stuck h r in (stuck, crash m m.sending refl stuck.waits closed)

-- Whenever a client that is in its session has left its message loop, with its writers still to be stopped,
-- what follows can crash the program: a goroutine comes to the send, the writers take the stop signal, and
-- teardownDracClient closes the channel.
pub going-Crashes :
    (l : Link)
    → l.main ≡ at_stop
    → l.listed ≡ true
    → ¬ IsStopped l.writers.phase
    → (f : ℕ) → (m : Link) × Reach l m × Crashes m
going-Crashes l main listed running f =
    let (q, moves) = stops_moves l.writers running in
    let a : Link = record l { sending = l.sending ++ f ∷ [] } in
    let b : Link = record a { main = at_teardown; writers = q } in
    let c : Link = record b { main = gone; listed = false; channel_closed = true } in
    (
      c,
      next (next (next here (comes_to l f listed)) (signals a q main moves)) (tears_down b refl),
      crash c c.sending refl (append-ne l.sending f) refl,
    )

-- If the channel is closed before the writers have taken the stop signal, as after a panic in the message
-- loop, what follows can crash the program too: bufferedVideoWriter takes nil frames, and dereferences one.
closed-Crashes :
    (l : Link)
    → l.channel_closed ≡ true
    → ¬ IsStopped l.writers.phase
    → (m : Link) × Reach l m × Crashes m
closed-Crashes l closed running = elim (nil_crashes l.writers running) [
  | inl e ↦ (l, here, nil_frame nil_dereference closed e)
  | inr (q, moves, e) ↦ (
    record l { writers = q },
    next here (takes_nil l q closed moves),
    nil_frame nil_dereference closed e,
  )
]
