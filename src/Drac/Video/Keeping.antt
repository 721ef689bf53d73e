-- ===== src/Drac/Video/Keeping.antt =====
-- The frame that is kept for the PNG handler, and the animation: what a new frame and the clean-up do to
-- them.
use dracd.Common.{
  map, sym, ◌∙◌, List, ◌∷◌, ◌++◌, ◌≢◌, suc, true, append-ne, ap, ℕ, ◌≡◌, refl, [], Option, none,
  some, modify, arith,
}
use dracd.Drac.Sessions.{AnimatedFrame, DracCtx}
use dracd.Drac.Video.{
  trim, Picture, Video, release_frame, announce, save_frame_for_animation, clean_up,
}
use dracd.Frame.{acquire}

last_png_frame-announce : (c : DracCtx) → (announce c).last_png_frame ≡ c.last_png_frame
last_png_frame-announce c = ground arith

module _ (v : Video) (p : Picture) (f ts : ℕ) (clock : ℕ → ℕ) where
  pub frames-save :
      (save_frame_for_animation v p f ts clock).0.frames
      ≡ release_frame v.session.last_png_frame (modify v.frames f acquire)
  unfolding save_frame_for_animation
  frames-save = refl

  pub last_png_frame-save :
      (save_frame_for_animation v p f ts clock).0.session.last_png_frame ≡ some f
  unfolding save_frame_for_animation
  last_png_frame-save = last_png_frame-announce _

pub frames-clean_up :
    (v : Video) → (clean_up v).0.frames ≡ release_frame v.session.last_png_frame v.frames
unfolding clean_up
frames-clean_up v =
    ap (λ (o : Option ℕ). release_frame o v.frames) (last_png_frame-announce v.session)

pub last_png_frame-clean_up : (v : Video) → (clean_up v).0.session.last_png_frame ≡ none
unfolding clean_up
last_png_frame-clean_up v = refl

pub animated_frame_list-clean_up : (v : Video) → (clean_up v).0.session.animated_frame_list ≡ []
unfolding clean_up
animated_frame_list-clean_up v = refl

-- Trimming leaves a frame.
trim-ne : (clock : ℕ → ℕ) (k : ℕ) (l : List AnimatedFrame) → l ≢ [] → (trim clock k l).1 ≢ []
unfolding trim
trim-ne clock k [] ne e = ne refl
trim-ne clock k (f ∷ []) ne e = cc
trim-ne clock k (f ∷ g ∷ rest) ne e =
    let kept = trim-ne clock (suc k) (g ∷ rest) (λ h. cc) in ground arith

sent_first_frame-announce : (c : DracCtx) → (announce c).sent_first_frame ≡ true
sent_first_frame-announce c = ground arith

pub animated_frame_list-announce :
    (c : DracCtx) → (announce c).animated_frame_list ≡ c.animated_frame_list
animated_frame_list-announce c = ground arith

pub freed-clean_up : (v : Video) → (clean_up v).1 ≡ map (λ f. f.qf) v.session.animated_frame_list
unfolding clean_up
freed-clean_up v = ap (map (λ f. f.qf)) (animated_frame_list-announce v.session)

module _ (v : Video) (p : Picture) (f ts : ℕ) (clock : ℕ → ℕ) where
  abbrev new : AnimatedFrame
  new = record { qf = p.qf; ts = ts }

  abbrev shown : List AnimatedFrame
  shown = v.session.animated_frame_list ++ new ∷ []

  abbrev saved : DracCtx
  saved = record v.session { last_png_frame = some f; animated_frame_list = (trim clock 0 shown).1 }

  pub sent_first_frame-save :
      (save_frame_for_animation v p f ts clock).0.session.sent_first_frame ≡ true
  unfolding save_frame_for_animation
  sent_first_frame-save = sent_first_frame-announce saved

  -- Behind a new frame the animation is not empty.
  pub animated_frame_list-save :
      (save_frame_for_animation v p f ts clock).0.session.animated_frame_list ≢ []
  unfolding save_frame_for_animation
  animated_frame_list-save e =
      trim-ne clock 0 shown (append-ne v.session.animated_frame_list new)
        (sym (animated_frame_list-announce saved) ∙ e)

pub sent_first_frame-clean_up : (v : Video) → (clean_up v).0.session.sent_first_frame ≡ true
unfolding clean_up
sent_first_frame-clean_up v = sent_first_frame-announce v.session
