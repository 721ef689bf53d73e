-- ===== src/Requests/Forsaken.antt =====
-- Requests that wait for a first frame which does not come.
use dracd.Common.{
  suc, refl, ◌≤◌, ℕ, ◌+◌, ◌<◌, ◌≡◌, inl, inr, List, true, false, Text, arith, Bool-cases,
}
use dracd.Drac.Handler
use dracd.Drac.Handler.{
  Life, on_finished, on_signal, on_timeout, client_joins, request_joins, client_leaves,
  request_leaves, frame_comes, wait_ends, socket_opens, reader_ends, finishes, signalled, times_out,
}
use dracd.Drac.Sessions.{DracState}
use dracd.Streaming
use dracd.Streaming.{
  Stream, write, add_bytes, add_picture, joins, greets, pictures, acquires, sends, releases, writes,
  reports, cleans, blanks, welcomes,
}
use dracd.Requests.{
  Session, Entrant, begun, IsApart, Allowed, Step, asks, visits, joins, arrives, heard, passes,
  answered, departs, lives, streams, opens_video, closes_video, Reach, here, next,
}
use dracd.Requests.Closing.{Reach-IsAnnounced}
use dracd.Requests.Counts.{Reach-Counted, apart-others}

-- What the handler sees of a session that is at its end but for the requests in it.
record IsOver (l : Life) : Type 0 where
  finished : l.finished ≡ true
  unregistered : l.registered ≡ false
  read : l.reader_ended ≡ true
  runs : l.running ≡ true
  used : 0 < l.others

heard-IsOver : (l : Life) (n b w : ℕ) → IsOver l → IsOver (heard l n b w)
unfolding on_signal
heard-IsOver l n b w h = ground arith

apart-IsOver : {l m : Life} (st : Handler.Step l m) → IsApart st → IsOver l → IsOver m
unfolding on_finished on_signal on_timeout
apart-IsOver (client_joins l r) a h = ground arith
apart-IsOver (request_joins l r) a h = absurd a
apart-IsOver (client_leaves l n e i) a h = ground arith
apart-IsOver (request_leaves l n e i) a h = absurd a
apart-IsOver (frame_comes l) a h = absurd a
apart-IsOver (wait_ends l n e f) a h = absurd a
apart-IsOver (socket_opens l) a h = ground arith
apart-IsOver (reader_ends l) a h = ground arith
apart-IsOver (finishes l r e f) a h = ground arith
apart-IsOver (signalled l n b c w r e h') a h = ground arith
apart-IsOver (times_out l r) a h = ground arith

-- A finished session without a frame and without anyone to send it, and `n` requests that wait.
record IsForsaken (n : ℕ) (s : Session) : Type 0 where
  over : IsOver s.life
  waits : n ≤ s.waiting
  some_wait : 0 < n
  counted : s.life.others ≡ s.joining + s.arriving + s.waiting + s.let_in + s.visiting
  unread : s.readers ≡ 0
  unsent : s.stream.video.session.sent_first_frame ≡ false
  unclosed : s.stream.video.session.first_frame_closes ≡ 0

session-stream :
    (s : Session) {t u : Stream} (st : Streaming.Step t u)
    → Allowed s st
    → IsOver s.life
    → s.readers ≡ 0
    → u.video.session ≡ t.video.session
unfolding write add_bytes add_picture
session-stream s (joins t) a h r = refl
session-stream s (greets t image) a h r = refl
session-stream s (blanks t image) a h r = refl
session-stream s (pictures t p x ts clock e') (inl reading) h r = absurd (cc (h.read))
session-stream s (pictures t p x ts clock e') (inr reading) h r = absurd (omega (arith))
session-stream s (acquires t front back f c' e') a h r = refl
session-stream s (sends t front back f c p q e' there moves) a h r = refl
session-stream s (welcomes t front back f c p q e' there moves) a h r = refl
session-stream s (releases t front back f e') a h r = refl
session-stream s (writes t c p q e' unreceived there moves) a h r = refl
session-stream s (reports t now) a h r = refl
session-stream s (cleans t) a h r = absurd (cc (h.runs))

Step-IsForsaken : {n : ℕ} {s t : Session} → Step s t → IsForsaken n s → IsForsaken n t
unfolding on_signal
Step-IsForsaken (asks s r) h = absurd (cc (h.over.unregistered))
Step-IsForsaken (visits s r) h = absurd (cc (h.over.unregistered))
Step-IsForsaken (joins s n k b w r e o) h =
    ground (arith, heard-IsOver s.life k b (suc s.life.waiting) h.over)
Step-IsForsaken (arrives s n k b w r e o) h =
    ground (arith, heard-IsOver s.life k b s.life.waiting h.over)
Step-IsForsaken (passes s n k w l c) h = absurd (ground (arith, h.unclosed))
Step-IsForsaken (answered s n k i o) h = ground (arith, h.over)
Step-IsForsaken (departs s n k i o) h = ground (arith, h.over)
Step-IsForsaken (lives s m st a) h = ground (arith, apart-IsOver st a h.over, apart-others st a)
Step-IsForsaken (streams s t st a) h = ground (arith, h.over, session-stream s st a h.over h.unread)
Step-IsForsaken (opens_video s r) h = absurd (cc (h.over.read))
Step-IsForsaken (closes_video s n r) h = absurd (omega (arith, h.unread))

Reach-IsForsaken : {n : ℕ} {s t : Session} → Reach s t → IsForsaken n s → IsForsaken n t
Reach-IsForsaken here h = h
Reach-IsForsaken (next r st) h = Step-IsForsaken st (Reach-IsForsaken r h)

-- If the control connection of a session has finished without a first frame, no videoReader runs, and requests
-- for an image wait, then in all that can follow as many wait on, and the handler, which would let them go
-- behind its loop, never leaves it.
pub unreached_waits :
    (e : Entrant) (host : Text) (now : ℕ) (states : List (Text × DracState)) (s t : Session)
    → Reach (begun e host now states) s
    → s.life.finished ≡ true
    → s.readers ≡ 0
    → s.stream.video.session.sent_first_frame ≡ false
    → 0 < s.waiting
    → Reach s t
    → (s.waiting ≤ t.waiting)
      × (t.life.running ≡ true)
      × (t.stream.video.session.sent_first_frame ≡ false)
unreached_waits e host now states s t r finished unread unsent waits later =
    let counted = Reach-Counted e host now states r in
    let inside : 0 < s.life.others = omega (arith, counted.counted, waits) in
    let start : IsForsaken s.waiting s = record {
      over = record {
        finished = finished;
        unregistered = elim (Bool-cases s.life.registered) [
          | inl listed ↦ absurd (cc (counted.valid.unfinished listed, finished))
          | inr out ↦ out
        ];
        read = counted.reader finished;
        runs = counted.valid.used (inr inside);
        used = inside;
      };
      waits = omega arith;
      some_wait = waits;
      counted = counted.counted;
      unread = unread;
      unsent = unsent;
      unclosed = (Reach-IsAnnounced host now states e r).unsent unsent;
    } in
    let end = Reach-IsForsaken later start in (end.waits, end.over.runs, end.unsent)
