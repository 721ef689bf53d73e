-- ===== src/Requests/Served.antt =====
-- What a request for an image gets, once it is past its wait.
use dracd.Common.{
  subst, ℕ, ◌<◌, ◌≡◌, ◌≢◌, refl, inl, inr, List, [], true, some, ok, Text, get_elem?, arith,
}
use dracd.Drac.Handler
use dracd.Drac.Handler.{
  Life, on_finished, on_signal, on_timeout, client_joins, request_joins, client_leaves,
  request_leaves, frame_comes, wait_ends, socket_opens, reader_ends, finishes, signalled, times_out,
}
use dracd.Drac.Sessions.{DracState}
use dracd.Drac.Video.Keeping.{
  animated_frame_list-save, sent_first_frame-save, sent_first_frame-clean_up,
}
use dracd.Streaming
use dracd.Streaming.{
  Stream, opened, write, add_bytes, add_picture, joins, greets, pictures, acquires, sends, releases,
  writes, reports, cleans, blanks, welcomes,
}
use dracd.Http.{bytes, png_host_handler}
use dracd.Http.Image.{png_host_handler-Answers}
use dracd.Requests.{
  is_closed, Session, Entrant, vnc_client, image_request, visitor, begun, Allowed, Step, asks,
  visits, joins, arrives, passes, answered, departs, lives, streams, opens_video, closes_video,
  Reach, here, next,
}
use dracd.Requests.Closing.{IsAnnounced, Reach-IsAnnounced}
use dracd.Requests.Counts.{Reach-Counted}

-- While the handler runs, the first frame has left an animation; and nobody gets past the wait before it.
record Framed (s : Session) : Type 0 where
  animation :
      s.stream.video.session.sent_first_frame ≡ true
      → s.life.running ≡ true
      → s.stream.video.session.animated_frame_list ≢ []
  sent : 0 < s.let_in → s.stream.video.session.sent_first_frame ≡ true

ran : {l m : Life} → Handler.Step l m → m.running ≡ true → l.running ≡ true
unfolding on_finished on_signal on_timeout
ran (client_joins l r) e = e
ran (request_joins l r) e = e
ran (client_leaves l n h i) e = e
ran (request_leaves l n h i) e = e
ran (frame_comes l) e = e
ran (wait_ends l n h f) e = e
ran (socket_opens l) e = e
ran (reader_ends l) e = e
ran (finishes l r h f) e = r
ran (signalled l n b c w r h i) e = r
ran (times_out l r) e = e

Step-Framed-stream :
    (s : Session) {t u : Stream} (st : Streaming.Step t u)
    → Allowed s st
    → Framed (record s { stream = t })
    → Framed (record s { stream = u })
unfolding write add_bytes add_picture
Step-Framed-stream s (joins t) a h = ground arith
Step-Framed-stream s (greets t image) a h = ground arith
Step-Framed-stream s (blanks t image) a h = ground arith
Step-Framed-stream s (pictures t p x ts clock e) a h = record {
  animation = λ _ _. animated_frame_list-save _ p _ ts clock;
  sent = λ _. sent_first_frame-save _ p _ ts clock;
}
Step-Framed-stream s (acquires t front back f c' e) a h = ground arith
Step-Framed-stream s (sends t front back f c p q e there moves) a h = ground arith
Step-Framed-stream s (welcomes t front back f c p q e there moves) a h = ground arith
Step-Framed-stream s (releases t front back f e) a h = ground arith
Step-Framed-stream s (writes t c p q e unreceived there moves) a h = ground arith
Step-Framed-stream s (reports t now) a h = ground arith
Step-Framed-stream s (cleans t) a h = ground (arith, sent_first_frame-clean_up t.video)

-- The channel is closed with the first frame only.
closed-sent :
    (s : Session)
    → IsAnnounced s.stream.video.session
    → is_closed s.stream ≡ true
    → s.stream.video.session.sent_first_frame ≡ true
closed-sent s h c = ground (arith, h)

Step-Framed : {s t : Session} → Step s t → IsAnnounced s.stream.video.session → Framed s → Framed t
Step-Framed (asks s r) g h = ground arith
Step-Framed (visits s r) g h = ground arith
Step-Framed (joins s n k b w r e o) g h = ground (arith, r)
Step-Framed (arrives s n k b w r e o) g h = ground (arith, r)
Step-Framed (passes s n k w l c) g h = ground (arith, closed-sent s g c)
Step-Framed (answered s n k i o) g h = ground arith
Step-Framed (departs s n k i o) g h = ground arith
Step-Framed (lives s m st a) g h = ground (arith, ran st)
Step-Framed (streams s t st a) g h =
    let k : Framed (record s { stream = t }) = Step-Framed-stream s st a h in
    record { animation = k.animation; sent = k.sent }
Step-Framed (opens_video s r) g h = ground arith
Step-Framed (closes_video s n r) g h = ground arith

begun-Framed :
    (e : Entrant) (host : Text) (now : ℕ) (states : List (Text × DracState))
    → Framed (begun e host now states)
begun-Framed vnc_client host now states = ground arith
begun-Framed image_request host now states = ground arith
begun-Framed visitor host now states = ground arith

module _ (e : Entrant) (host : Text) (now : ℕ) (states : List (Text × DracState)) where
  Reach-Framed : {s : Session} → Reach (begun e host now states) s → Framed s
  Reach-Framed here = begun-Framed e host now states
  Reach-Framed (next r st) = Step-Framed st (Reach-IsAnnounced host now states e r) (Reach-Framed r)

opened-stream :
    (e : Entrant) (host : Text) (now : ℕ) (states : List (Text × DracState))
    → (begun e host now states).stream ≡ opened host now states
opened-stream vnc_client host now states = refl
opened-stream image_request host now states = refl
opened-stream visitor host now states = refl

step-stream :
    {o : Stream} {s t : Session}
    → Step s t
    → Streaming.Reach o s.stream
    → Streaming.Reach o t.stream
step-stream (asks s r) h = h
step-stream (visits s r) h = h
step-stream (joins s n k b w r e o) h = h
step-stream (arrives s n k b w r e o) h = h
step-stream (passes s n k w l c) h = h
step-stream (answered s n k i o) h = h
step-stream (departs s n k i o) h = h
step-stream (lives s m st a) h = h
step-stream (streams s t st a) h = Streaming.next h st
step-stream (opens_video s r) h = h
step-stream (closes_video s n r) h = h

reach-stream : {s t : Session} → Reach s t → Streaming.Reach s.stream t.stream
reach-stream here = Streaming.here
reach-stream (next r st) = step-stream st (reach-stream r)

-- Whatever happens to a session: while a request for an image is past its wait and has not left, the session
-- has an animation, and the PNG handler answers with the image that the last frame was made of, and never
-- with an error.
pub png_host_handler_served :
    (e : Entrant) (host : Text) (now : ℕ) (states : List (Text × DracState)) (s : Session)
    → Reach (begun e host now states) s
    → 0 < s.let_in
    → (s.stream.video.session.animated_frame_list ≢ [])
      × ((f : ℕ) × (image : List ℕ) × (s.stream.video.session.last_png_frame ≡ some f)
          × (get_elem? s.stream.images f ≡ some image)
          × (png_host_handler s.stream.video ≡ ok (bytes image)))
png_host_handler_served e host now states s r inside =
    let framed = Reach-Framed e host now states r in
    let counted = Reach-Counted e host now states r in
    let runs : s.life.running ≡ true =
      counted.valid.used (inr (omega (arith, counted.counted, inside))) in
    let shows = framed.animation (framed.sent inside) runs in
    let streamed =
      subst (λ o. Streaming.Reach o s.stream) (opened-stream e host now states) (reach-stream r) in
    elim (png_host_handler-Answers host now states s.stream streamed) [
      | inl (failed, nothing) ↦ absurd (shows nothing)
      | inr answer ↦ (shows, answer)
    ]
