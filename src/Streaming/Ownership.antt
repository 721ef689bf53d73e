-- ===== src/Streaming/Ownership.antt =====
-- The count of references of each frame is the number of those who hold one, in whatever order the
-- goroutines act.
use dracd.Vnc.Writer.Balance.{taken-held, held}
use dracd.Streaming.{DracState, Stream, opened, Reach}
use dracd.Common.{
  ◌≤◌, Text, ap, ℕ, zero, suc, ◌<◌, ◌≡◌, List, [], ◌∷◌, ◌++◌, Option, some, count, get_elem?, arith,
  pos,
}
use dracd.Frame.{Frame}
use dracd.Frame.Counting.{Live, left}
use dracd.Vnc.Writer
use dracd.Vnc.Writer.{Pipeline, taken, moved, references}
use dracd.Streaming.Counted.{Counted-get_elem?, Counted-Live}
use dracd.Streaming.Holding.{held_by, holders, Sound, Reach-Sound, opened-Sound, one_self}

-- In a session that setupDracClient has opened, whatever the goroutines have done: the count of each frame
-- is the number of references that are held, in the hands of videoUpdate and setupDracClient, as lastPngFrame and by
-- the writers; while there is one the frame has its image, and has not been freed; with none left, memory of
-- the C library has been freed, once.
pub Reach_counted :
    (host : Text) (now : ℕ) (states : List (Text × DracState)) (s : Stream) (f : ℕ) (x : Frame)
    → Reach (opened host now states) s
    → get_elem? s.video.frames f ≡ some x
    → (image : List ℕ) × (get_elem? s.images f ≡ some image)
      × (x.refcount ≡ pos (holders s f))
      × ((x.image, x.frees) ≡ left (holders s f) x.backing image)
Reach_counted host now states s f x r e =
    let (image, made, live) =
      Counted-Live f s.video.frames s.images (holders s) x
        (Reach-Sound (opened-Sound host now states) r) e in
    (image, made, live.counted, live.contents)

-- The frame is there with its image, and is not freed.
abbrev pub IsWhole : Stream → ℕ → Type 0
IsWhole s f =
    (x : Frame) × (get_elem? s.video.frames f ≡ some x)
    × (get_elem? s.images f ≡ some x.image)
    × (x.frees ≡ 0)

contents-held :
    (image : List ℕ) (x : Frame) (n : ℕ)
    → 0 < n
    → Live image x.backing n x
    → (x.image ≡ image) × (x.frees ≡ 0)
contents-held image x zero held h = absurd (omega arith)
contents-held image x (suc n) held h = ground (arith, h.contents)

pub held-IsWhole : (s : Stream) (f : ℕ) → Sound s → 0 < holders s f → IsWhole s f
held-IsWhole s f h held =
    let (x, image, there, made, live) =
      Counted-get_elem? f s.video.frames s.images (holders s) h held in
    let whole = contents-held image x (holders s f) held live in
    (x, there, ground (arith, made, whole.0), whole.1)

pub held_by-get_elem? :
    (g : ℕ) (ps : List Pipeline) (c : ℕ) (p : Pipeline)
    → get_elem? ps c ≡ some p
    → count g (held p.phase) ≤ held_by g ps
held_by-get_elem? g [] c p e = absurd (cc)
held_by-get_elem? g (r ∷ ps) zero p e =
    let same : r ≡ p = ground arith in
    omega (arith, ap (λ (t : Pipeline). count g (held t.phase)) same)
held_by-get_elem? g (r ∷ ps) (suc c) p e = omega (arith, held_by-get_elem? g ps c p e)

-- In a session that setupDracClient has opened, whatever the goroutines have done: when videoWriter takes
-- a frame, it sends it to its client, and the frame has its image and its memory is not freed.
taken-IsWhole :
    (host : Text) (now : ℕ) (states : List (Text × DracState)) (s : Stream) (c : ℕ) (p q : Pipeline)
    → Reach (opened host now states) s
    → get_elem? s.writers c ≡ some p
    → Writer.step p taken ≡ moved q
    → (f : ℕ) × (q.shown ≡ p.shown ++ f ∷ []) × IsWhole s f
taken-IsWhole host now states s c p q r there moves =
    let (f, shown, holds) = taken-held p q moves in
    (
      f,
      shown,
      held-IsWhole s f (Reach-Sound (opened-Sound host now states) r)
          (omega (arith, holds, held_by-get_elem? f s.writers c p there)),
    )

-- In such a session, the frame that is kept for the PNG handler has its image, and its memory is not freed.
pub last_png_frame-IsWhole :
    (host : Text) (now : ℕ) (states : List (Text × DracState)) (s : Stream) (f : ℕ)
    → Reach (opened host now states) s
    → s.video.session.last_png_frame ≡ some f
    → IsWhole s f
last_png_frame-IsWhole host now states s f r last =
    held-IsWhole s f (Reach-Sound (opened-Sound host now states) r)
      (omega (arith, ap (λ (o : Option ℕ). count f (references o)) last, one_self f))
