-- ===== src/Vnc/Writer.antt =====
-- bufferedVideoWriter and videoWriter of vnc.go, the two goroutines behind one client. A reference to
-- a frame is its address. What the goroutines receive is a sequence of events, in the order in which
-- their selects take them.
pub mod Balance
pub mod Mailbox
pub mod References
pub mod Closing
pub mod Stopped
pub mod Showing
pub mod Owing
use dracd.Common.{
  ℕ, ◌+◌, ◌-◌, List, [], ◌∷◌, ◌++◌, Option, none, some, Bool, true, false, Panic, nil_dereference,
  if◌then◌else◌, ltb,
}

-- Where bufferedVideoWriter stands: in its outer select, in the inner one with a frame, at the send on
-- videoStopSignal, or at its end.
pub data Phase : Type 0 where
  waiting : Phase
  offering : Option ℕ → Phase
  stopping : Phase
  stopped : Phase

-- The two goroutines, and a log of the references that were received, released, and sent to the
-- client. `pending` is pendingVideoUpdates, and `writing` says that videoWriter runs.
pub record Pipeline : Type 0 where
  pub phase : Phase
  pub pending : ℕ
  pub writing : Bool
  pub received : List ℕ
  pub released : List ℕ
  pub shown : List ℕ

-- The goroutines as handleVncConnection starts them.
abbrev pub start : Pipeline
start = record {
  phase = waiting;
  pending = 0;
  writing = true;
  received = [];
  released = [];
  shown = [];
}

-- A frame arrives on videoChannel, or nil if the channel is closed; a request arrives on
-- sendVideoChannel; videoWriter takes the frame that is offered on frameChannel; a stop signal arrives
-- at bufferedVideoWriter, or its own at videoWriter.
pub data Event : Type 0 where
  arrives : Option ℕ → Event
  requested : Event
  taken : Event
  stops : Event
  writer_stops : Event

-- An event that no select waits for is blocked.
pub data Next : Type 0 where
  moved : Pipeline → Next
  blocked : Next
  crashed : Panic → Next

abbrev pub references : Option ℕ → List ℕ
references none = []
references (some f) = f ∷ []

-- `case newFrame := <-vncCtx.videoChannel`, with the frame that was buffered: nil has no release.
replace : Pipeline → (old new : Option ℕ) → Next
replace p none new = crashed nil_dereference
replace p (some f) new = moved (record p {
  phase = offering new;
  received = p.received ++ references new;
  released = p.released ++ f ∷ [];
})

-- videoWriter sends the frame and releases it.
show : Pipeline → Option ℕ → Next
show p none = crashed nil_dereference
show p (some f) = moved (record p {
  phase = waiting;
  pending = p.pending - 1;
  released = p.released ++ f ∷ [];
  shown = p.shown ++ f ∷ [];
})

-- Behind the loop of bufferedVideoWriter: `if frame != nil { frame.release() }`.
stop : Pipeline → Option ℕ → Next
stop p frame = moved (record p { phase = stopping; released = p.released ++ references frame })

arrive : Phase → Pipeline → Option ℕ → Next
arrive waiting p new =
    moved (record p { phase = offering new; received = p.received ++ references new })
arrive (offering old) p new = replace p old new
arrive stopping p new = blocked
arrive stopped p new = blocked

-- videoWriter waits on frameChannel only with an update pending.
take_frame : Phase → Pipeline → Next
take_frame (offering frame) p =
    if p.writing then (if ltb 0 p.pending then show p frame else blocked) else blocked
take_frame _ p = blocked

stop_buffer : Phase → Pipeline → Next
stop_buffer waiting p = stop p none
stop_buffer (offering frame) p = stop p frame
stop_buffer _ p = blocked

stop_writer : Phase → Pipeline → Next
stop_writer stopping p =
    if p.writing then moved (record p { phase = stopped; writing = false }) else blocked
stop_writer _ p = blocked

unfoldable pub step : Pipeline → Event → Next
unfolding arrive replace show stop take_frame stop_buffer stop_writer
step p (arrives new) = arrive p.phase p new
step p requested = if p.writing then moved (record p { pending = p.pending + 1 }) else blocked
step p taken = take_frame p.phase p
step p stops = stop_buffer p.phase p
step p writer_stops = stop_writer p.phase p

abbrev pub and_then : Next → (Pipeline → Next) → Next
and_then (moved p) f = f p
and_then blocked f = blocked
and_then (crashed e) f = crashed e

unfoldable pub run : Pipeline → List Event → Next
unfolding step
run p [] = moved p
run p (e ∷ es) = and_then (step p e) (λ q. run q es)
