-- ===== src/Streaming/Quantized.antt =====
-- The quantized frames of a session: C memory that saveFrameForAnimation gets for each new frame and puts into the
-- animation, and that the trimming of the animation and the clean-up of dracHandler free.
use dracd.Common.{
  some, ℕ, suc, ◌-◌, ◌≡◌, refl, sym, ap, ◌∙◌, List, [], ◌∷◌, ◌++◌, map, append-nil, append_assoc,
  length, Bool-cases, inl, inr, ltb, Text,
}
use dracd.Drac.Sessions.{DracCtx, AnimatedFrame, DracState}
use dracd.Drac.Video.{
  Video, Picture, add_frame, save_frame_for_animation, clean_up, trim, five_seconds, announce,
}
use dracd.Drac.Video.Keeping.{
  animated_frame_list-announce, freed-clean_up, animated_frame_list-clean_up,
}
use dracd.Gif.{encode_gif}
use dracd.Gif.Given.{given, given-encode_gif}
use dracd.Streaming.{
  Stream, opened, add_bytes, add_picture, write, Step, joins, greets, pictures, acquires, sends,
  releases, writes, reports, cleans, Reach, here, next, blanks, welcomes,
}

-- quantizeFrame, in the order of the calls.
abbrev pub quantized : {s t : Stream} → Step s t → List ℕ
quantized (pictures s p x ts clock e) = p.qf ∷ []
quantized _ = []

-- freeQuantizedFrame, in the order of the calls.
abbrev pub freed : {s t : Stream} → Step s t → List ℕ
freed (pictures s p x ts clock e) =
    (save_frame_for_animation (add_frame s.video x) p (length s.video.frames) ts clock).1
freed (cleans s) = (clean_up s.video).1
freed _ = []

unfoldable pub quantized_by : {s t : Stream} → Reach s t → List ℕ
quantized_by here = []
quantized_by (next r st) = quantized_by r ++ quantized st

unfoldable pub freed_by : {s t : Stream} → Reach s t → List ℕ
freed_by here = []
freed_by (next r st) = freed_by r ++ freed st

-- The quantized frames of the animation.
abbrev pub animation : Stream → List ℕ
animation s = map (λ f. f.qf) s.video.session.animated_frame_list

map-append :
    (xs ys : List AnimatedFrame)
    → map (λ f. f.qf) (xs ++ ys) ≡ map (λ f. f.qf) xs ++ map (λ f. f.qf) ys
map-append [] ys = refl
map-append (x ∷ xs) ys = ap (◌∷◌ x.qf) (map-append xs ys)

-- What `trim` frees and what it keeps is what there was.
trim-map :
    (clock : ℕ → ℕ) (k : ℕ) (l : List AnimatedFrame)
    → map (λ f. f.qf) l ≡ (trim clock k l).0 ++ map (λ f. f.qf) (trim clock k l).1
unfolding trim
trim-map clock k [] = refl
trim-map clock k (f ∷ []) = refl
trim-map clock k (f ∷ g ∷ rest) = elim (Bool-cases (ltb five_seconds (clock k - f.ts))) [
  | inl old ↦ rw old (ap (◌∷◌ f.qf) (trim-map clock (suc k) (g ∷ rest)))
  | inr young ↦ rw young refl
]

-- What saveFrameForAnimation makes of the animation.
quantized-save :
    (v : Video) (p : Picture) (f ts : ℕ) (clock : ℕ → ℕ)
    → let (v', gone) = save_frame_for_animation v p f ts clock in
      map (λ a. a.qf) v.session.animated_frame_list ++ p.qf ∷ []
      ≡ gone ++ map (λ a. a.qf) v'.session.animated_frame_list
unfolding save_frame_for_animation
quantized-save v p f ts clock =
    let new : AnimatedFrame = record { qf = p.qf; ts = ts } in
    let l : List AnimatedFrame = v.session.animated_frame_list ++ new ∷ [] in
    let kept : List AnimatedFrame = (trim clock 0 l).1 in
    let c : DracCtx = record v.session { last_png_frame = some f; animated_frame_list = kept } in
    let same : (announce c).animated_frame_list ≡ kept = animated_frame_list-announce c in
    sym (map-append v.session.animated_frame_list (new ∷ []))
    ∙ trim-map clock 0 l
    ∙ ap (λ k. (trim clock 0 l).0 ++ map (λ a. a.qf) k) (sym same)

Step-quantized :
    {s t : Stream} (st : Step s t) → animation s ++ quantized st ≡ freed st ++ animation t
unfolding add_bytes add_picture write save_frame_for_animation
Step-quantized (joins s) = append-nil _
Step-quantized (greets s image) = append-nil _
Step-quantized (blanks s image) = append-nil _
Step-quantized (pictures s p x ts clock e) =
    quantized-save (add_frame s.video x) p (length s.video.frames) ts clock
Step-quantized (acquires s front back f c' e) = append-nil _
Step-quantized (sends s front back f c p q e there moves) = append-nil _
Step-quantized (welcomes s front back f c p q e there moves) = append-nil _
Step-quantized (releases s front back f e) = append-nil _
Step-quantized (writes s c p q e none_received there moves) = append-nil _
Step-quantized (reports s now) = append-nil _
Step-quantized (cleans s) =
    append-nil _
    ∙ sym (freed-clean_up s.video)
    ∙ sym (append-nil _)
    ∙ ap (λ l. (clean_up s.video).1 ++ map (λ f. f.qf) l)
        (sym (animated_frame_list-clean_up s.video))

by_then :
    {o s : Stream} (r : Reach o s) → animation o ≡ [] → quantized_by r ≡ freed_by r ++ animation s
unfolding quantized_by freed_by
by_then here e = sym e
by_then {o} {s} (next {t} r st) e =
    ap (λ l. l ++ quantized st) (by_then r e)
    ∙ append_assoc (freed_by r) (animation t) (quantized st)
    ∙ ap (λ l. freed_by r ++ l) (Step-quantized st)
    ∙ sym (append_assoc (freed_by r) (freed st) (animation s))

-- Whatever the goroutines of a session that setupDracClient has opened have done: the quantized frames that were made
-- for it are, in the order in which they were made, those that have been freed and then those of its animation, so
-- that each is freed once at most, and none while it is in the animation; and those of the animation are the ones that
-- encodeGif gives to the C library at any moment (it panics if there are none).
pub quantized_freed :
    (host : Text) (now : ℕ) (states : List (Text × DracState)) (s : Stream)
    (r : Reach (opened host now states) s) (moment : ℕ)
    → (quantized_by r ≡ freed_by r ++ animation s)
      × (given (encode_gif moment s.video.session.animated_frame_list) ≡ animation s)
quantized_freed host now states s r moment =
    (by_then r refl, given-encode_gif moment s.video.session.animated_frame_list)
