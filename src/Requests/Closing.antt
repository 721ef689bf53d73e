-- ===== src/Requests/Closing.antt =====
-- When firstFrameEvent of a session is closed.
use dracd.Common.{ℕ, ◌≡◌, length, List, true, false, Text, arith}
use dracd.Drac.Sessions.{DracCtx, DracState}
use dracd.Drac.Video.{Video, Picture, add_frame, announce, save_frame_for_animation, clean_up}
use dracd.Streaming
use dracd.Streaming.{
  Stream, write, add_bytes, add_picture, joins, greets, pictures, acquires, sends, releases, writes,
  reports, cleans, blanks, welcomes,
}
use dracd.Requests.{
  Session, Entrant, vnc_client, image_request, visitor, begun, Step, asks, visits, arrives, passes,
  answered, departs, lives, streams, opens_video, closes_video, Reach, here, next,
}
use dracd.Requests

-- The channel is closed once, when the first frame has been sent.
pub record IsAnnounced (c : DracCtx) : Type 0 where
  pub sent : c.sent_first_frame ≡ true → c.first_frame_closes ≡ 1
  pub unsent : c.sent_first_frame ≡ false → c.first_frame_closes ≡ 0

announce-IsAnnounced : (c : DracCtx) → IsAnnounced c → IsAnnounced (announce c)
announce-IsAnnounced c h = ground arith

save-IsAnnounced :
    (v : Video) (p : Picture) (f ts : ℕ) (clock : ℕ → ℕ)
    → IsAnnounced v.session
    → IsAnnounced (save_frame_for_animation v p f ts clock).0.session
unfolding save_frame_for_animation
save-IsAnnounced v p f ts clock h = ground arith

Step-IsAnnounced :
    {t u : Stream} → Streaming.Step t u → IsAnnounced t.video.session → IsAnnounced u.video.session
unfolding write add_bytes add_picture clean_up
Step-IsAnnounced (joins t) h = h
Step-IsAnnounced (greets t image) h = h
Step-IsAnnounced (blanks t image) h = h
Step-IsAnnounced (pictures t p x ts clock e) h =
    save-IsAnnounced (add_frame t.video x) p (length t.video.frames) ts clock h
Step-IsAnnounced (acquires t front back f c' e) h = h
Step-IsAnnounced (sends t front back f c p q e there moves) h = h
Step-IsAnnounced (welcomes t front back f c p q e there moves) h = h
Step-IsAnnounced (releases t front back f e) h = h
Step-IsAnnounced (writes t c p q e unreceived there moves) h = h
Step-IsAnnounced (reports t now) h = h
Step-IsAnnounced (cleans t) h = ground (arith, announce-IsAnnounced t.video.session h)

Step-IsAnnounced' :
    {s t : Session}
    → Step s t
    → IsAnnounced s.stream.video.session
    → IsAnnounced t.stream.video.session
Step-IsAnnounced' (asks s r) h = h
Step-IsAnnounced' (visits s r) h = h
Step-IsAnnounced' (Requests.joins s n k b w r e o) h = h
Step-IsAnnounced' (arrives s n k b w r e o) h = h
Step-IsAnnounced' (passes s n k w l c) h = h
Step-IsAnnounced' (answered s n k i o) h = h
Step-IsAnnounced' (departs s n k i o) h = h
Step-IsAnnounced' (lives s m st a) h = h
Step-IsAnnounced' (streams s t st a) h = Step-IsAnnounced st h
Step-IsAnnounced' (opens_video s r) h = h
Step-IsAnnounced' (closes_video s n r) h = h

module _ (host : Text) (now : ℕ) (states : List (Text × DracState)) where
  begun-IsAnnounced : (e : Entrant) → IsAnnounced (begun e host now states).stream.video.session
  begun-IsAnnounced vnc_client = ground arith
  begun-IsAnnounced image_request = ground arith
  begun-IsAnnounced visitor = ground arith

  pub Reach-IsAnnounced :
      (e : Entrant) {s : Session}
      → Reach (begun e host now states) s
      → IsAnnounced s.stream.video.session
  Reach-IsAnnounced e here = begun-IsAnnounced e
  Reach-IsAnnounced e (next r st) = Step-IsAnnounced' st (Reach-IsAnnounced e r)
