-- ===== src/Http/Image.antt =====
-- What the PNG handler answers, whatever the goroutines of a session have done.
use dracd.Common.{
  ℕ, ◌≡◌, refl, List, [], ◌∷◌, some, Text, get_elem?, Outcome, ok, ◌⊎◌, inl, inr, ap, ◌∙◌,
}
use dracd.Frame.{Frame}
use dracd.Drac.Sessions.{DracState, AnimatedFrame}
use dracd.Streaming.{Stream, opened, Reach}
use dracd.Streaming.Kept.{IsKept, Reach-IsKept}
use dracd.Streaming.Ownership.{last_png_frame-IsWhole}
use dracd.Http.{Response, error, bytes, write_frame, frame_of, png_host_handler}

-- What the PNG handler may answer: an error, if the session has no animation, or the image that the last
-- frame was made of.
abbrev pub Answers : Stream → Outcome Response → Type 0
Answers s answer =
    ((answer ≡ ok (error 500)) × (s.video.session.animated_frame_list ≡ []))
    ⊎ ((f : ℕ) × (image : List ℕ) × (s.video.session.last_png_frame ≡ some f)
        × (get_elem? s.images f ≡ some image)
        × (answer ≡ ok (bytes image)))

-- In a session that setupDracClient has opened, whatever the goroutines have done, the PNG handler, which
-- runs under dracmapLock, does not panic: it answers with an error, if there is no animation, and else with
-- the image that the last frame was made of.
pub png_host_handler-Answers :
    (host : Text) (now : ℕ) (states : List (Text × DracState)) (s : Stream)
    → Reach (opened host now states) s
    → Answers s (png_host_handler s.video)
unfolding png_host_handler write_frame frame_of
png_host_handler-Answers host now states s r =
    go s.video.session.animated_frame_list refl (Reach-IsKept (inl refl) r)
  where
    answered :
        {f : ℕ} {x : Frame}
        → s.video.session.last_png_frame ≡ some f
        → get_elem? s.video.frames f ≡ some x
        → write_frame (frame_of s.video.frames s.video.session.last_png_frame) ≡ ok (bytes x.image)
    answered last there =
        ap (λ o. write_frame (frame_of s.video.frames o)) last ∙ ap write_frame there

    go :
        (l : List AnimatedFrame)
        → s.video.session.animated_frame_list ≡ l
        → IsKept s.video
        → Answers s (elim l [
          | [] ↦ ok (error 500)
          | f ∷ fs ↦ write_frame (frame_of s.video.frames s.video.session.last_png_frame)
        ])
    go [] e h = inl (refl, e)
    go (a ∷ l) e (inl none_left) = absurd (cc)
    go (a ∷ l) e (inr (f, last)) =
        let (x, there, made, whole) = last_png_frame-IsWhole host now states s f r last in
        inr (f, x.image, last, made, answered last there)
