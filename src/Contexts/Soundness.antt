-- ===== src/Contexts/Soundness.antt =====
-- What the steps of a session keep of its C context and its videoReaders.
use dracd.Common.{◌+◌, ◌<◌, ◌≡◌, ◌≢◌, inl, inr, true, false, arith}
use dracd.Drac.Handler
use dracd.Drac.Handler.{
  Life, on_finished, on_signal, on_timeout, client_joins, request_joins, client_leaves,
  request_leaves, frame_comes, wait_ends, socket_opens, reader_ends, finishes, signalled, times_out,
  opened_by_client, opened_by_request,
}
use dracd.Drac.Handler.Lifetime
use dracd.Drac.Handler.Lifetime.{Step-IsValid, Reach_served}
use dracd.Contexts.{
  unset, freed, Session, Opener, client, request, begun, IsApart, Step, lives, connects, allocates,
  starts_video, stops_video, ends_alone, ends_after_video, frees, Reach, here, next,
}

-- What holds of a session: the handler has ended where the context is freed, ctrlReader where the handler has,
-- there is none before the controller is connected to, and each videoReader that was started runs, is done, or has
-- been waited for by ctrlReader at its end.
pub record Sound (s : Session) : Type 0 where
  pub valid : Lifetime.IsValid s.life
  pub read : s.life.finished ≡ true → s.life.reader_ended ≡ true
  pub over : s.ctx ≡ freed → s.life.running ≡ false
  pub unconnected : s.life.has_socket ≡ false → s.ctx ≡ unset
  pub shown : 0 < s.started → s.ctx ≢ unset
  pub all_started : s.life.reader_ended ≡ false → s.video + s.done ≡ s.started
  pub one_waited : s.life.reader_ended ≡ true → 0 < s.started → s.video + s.done + 1 ≡ s.started
  pub none_left : s.started ≡ 0 → s.video + s.done ≡ 0

-- The handler and those that come and go leave what ctrlReader has done, and a handler that has ended does not come
-- back.
record Kept (l m : Life) : Type 0 where
  read : m.reader_ended ≡ l.reader_ended
  socket : m.has_socket ≡ l.has_socket
  over : l.running ≡ false → m.running ≡ false
  finished : (l.finished ≡ true → l.reader_ended ≡ true) → m.finished ≡ true → m.reader_ended ≡ true

apart-Kept : (s : Session) {l m : Life} (st : Handler.Step l m) → IsApart s st → Kept l m
unfolding on_finished on_signal on_timeout
apart-Kept s (client_joins l r) a = ground arith
apart-Kept s (request_joins l r) a = ground arith
apart-Kept s (client_leaves l n e i) a = ground arith
apart-Kept s (request_leaves l n e i) a = ground arith
apart-Kept s (frame_comes l) a = ground arith
apart-Kept s (wait_ends l n e f) a = ground arith
apart-Kept s (socket_opens l) a = absurd a
apart-Kept s (reader_ends l) a = absurd a
apart-Kept s (finishes l r e f) a = ground arith
apart-Kept s (signalled l n b c w r e h) a = ground arith
apart-Kept s (times_out l r) a = ground arith

Step-Sound : {s t : Session} → Step s t → Sound s → Sound t
Step-Sound (lives s m st a) h = ground (arith, Step-IsValid st h.valid, apart-Kept s st a)
Step-Sound (connects s r u) h = ground (arith, Step-IsValid (socket_opens s.life) h.valid)
Step-Sound (allocates s r w u) h = ground arith
Step-Sound (starts_video s r u) h = ground arith
Step-Sound (stops_video s n v) h = ground arith
Step-Sound (ends_alone s r z) h = ground (arith, Step-IsValid (reader_ends s.life) h.valid)
Step-Sound (ends_after_video s n r d) h = ground (arith, Step-IsValid (reader_ends s.life) h.valid)
Step-Sound (frees s e u) h = ground arith

pub begun-Sound : (o : Opener) → Sound (begun o)
begun-Sound client = ground (arith, Reach_served opened_by_client (inl Handler.here))
begun-Sound request = ground (arith, Reach_served opened_by_request (inr Handler.here))

pub Reach-Sound : {s t : Session} → Sound s → Reach s t → Sound t
Reach-Sound h here = h
Reach-Sound h (next r st) = Step-Sound st (Reach-Sound h r)
