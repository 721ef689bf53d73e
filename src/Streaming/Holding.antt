-- ===== src/Streaming/Holding.antt =====
-- Each step of the goroutines keeps the counts of references and their holders in balance.
use dracd.Vnc.Writer.Balance.{held, received_by, newly, count-step}
use dracd.Streaming.{
  DracState, Hand, at_loop, at_send, at_greeting, held_in, hands, blanks, welcomes, Stream, opened,
  release_all, write, add_bytes, add_picture, change, Step, joins, greets, pictures, acquires,
  sends, releases, writes, reports, cleans, Reach, here, next,
}
use dracd.Common.{
  Text, ap, ℕ, zero, suc, ◌+◌, ◌≡◌, refl, List, [], ◌∷◌, ◌++◌, Option, none, some, length, one,
  count, count-append, get_elem?, modify, arith,
}
use dracd.Frame.{Frame, acquire, release}
use dracd.Frame.Counting.{Live, new_frame-Live, new_frame_from_bytes-Live}
use dracd.Drac.Video.{Picture, Video, add_frame, release_frame, clean_up}
use dracd.Drac.Video.Keeping.{
  frames-save, last_png_frame-save, frames-clean_up, last_png_frame-clean_up,
}
use dracd.Vnc.Writer
use dracd.Vnc.Writer.{Pipeline, Event, arrives, moved, references}
use dracd.Streaming.Counted.{
  Counted, Counted-same, Counted-acquire, Counted-release, Counted-release_all, Counted-add,
}

-- How many references to a frame the writers hold, all told.
abbrev pub held_by : ℕ → List Pipeline → ℕ
held_by g [] = 0
held_by g (p ∷ ps) = count g (held p.phase) + held_by g ps

-- The holders of a frame: goroutines with the frame in hand, lastPngFrame, and the clients' writers.
abbrev pub holders : Stream → ℕ → ℕ
holders s g =
    count g (hands s.in_hand)
    + (count g (references s.video.session.last_png_frame) + held_by g s.writers)

held_by-append :
    (g : ℕ) (ps : List Pipeline) (p : Pipeline)
    → held_by g (ps ++ p ∷ []) ≡ held_by g ps + count g (held p.phase)
held_by-append g [] p = omega arith
held_by-append g (q ∷ ps) p = omega (arith, held_by-append g ps p)

held_by-modify :
    (g : ℕ) (ps : List Pipeline) (c : ℕ) (p q : Pipeline)
    → get_elem? ps c ≡ some p
    → held_by g (modify ps c (λ _. q)) + count g (held p.phase)
      ≡ held_by g ps + count g (held q.phase)
held_by-modify g [] c p q e = absurd (cc)
held_by-modify g (r ∷ ps) zero p q e =
    let same : r ≡ p = ground arith in
    omega (arith, ap (λ (t : Pipeline). count g (held t.phase)) same)
held_by-modify g (r ∷ ps) (suc c) p q e = omega (arith, held_by-modify g ps c p q e)

abbrev pub Sound : Stream → Type 0
Sound s = Counted s.video.frames s.images (holders s)

release_frame-references :
    (old : Option ℕ) (frames : List Frame)
    → release_frame old frames ≡ release_all (references old) frames
unfolding release_frame release_all
release_frame-references none frames = refl
release_frame-references (some f) frames = refl

-- One who has a frame in hand, among the others.
count-hands :
    (g : ℕ) (front back : List Hand) (h : Hand)
    → count g (hands (front ++ h ∷ back)) ≡ count g (hands (front ++ back)) + count g (held_in h)
count-hands g [] back h = omega (arith, count-append g (held_in h) (hands back))
count-hands g (k ∷ front) back h = omega (
  arith,
  count-hands g front back h,
  count-append g (held_in k) (hands (front ++ h ∷ back)),
  count-append g (held_in k) (hands (front ++ back)),
)

count-hand :
    (g : ℕ) (hand front back : List Hand) (h : Hand)
    → hand ≡ front ++ h ∷ back
    → count g (hands hand) ≡ count g (hands (front ++ back)) + count g (held_in h)
count-hand g hand front back h e =
    omega (arith, ap (λ l. count g (hands l)) e, count-hands g front back h)

pub one_self : (f : ℕ) → one f f ≡ 1
one_self f = ground arith

module _ (s : Stream) (h : Sound s) where
  joins-Sound : Sound (record s { writers = s.writers ++ Writer.start ∷ [] })
  joins-Sound =
      Counted-same s.video.frames s.images (holders s) _
        (λ g. omega (arith, held_by-append g s.writers Writer.start)) h

  greets-Sound :
      (image : List ℕ) (hand : ℕ → Hand)
      → ((f : ℕ) → held_in (hand f) ≡ f ∷ [])
      → Sound (add_bytes s image hand)
  unfolding add_bytes
  greets-Sound image hand one_held =
      Counted-add _ image s.video.frames s.images (holders s) _
        (new_frame_from_bytes-Live image 640 480)
        (λ g.
          let n : ℕ = length s.video.frames in
          omega
            (arith, ap (count g) (one_held n), count-append g (held_in (hand n)) (hands s.in_hand)))
        h

  acquires-Sound :
      (front back : List Hand) (f c : ℕ)
      → s.in_hand ≡ front ++ at_loop f ∷ back
      → Sound (record (change s f acquire) { in_hand = front ++ at_send f c ∷ back })
  acquires-Sound front back f c e =
      Counted-acquire f s.video.frames s.images (holders s) _
        (omega (arith, count-hand f s.in_hand front back (at_loop f) e, one_self f))
        (λ g. omega (
          arith,
          count-hand g s.in_hand front back (at_loop f) e,
          count-hands g front back (at_send f c),
        ))
        h

  releases-Sound :
      (front back : List Hand) (f : ℕ)
      → s.in_hand ≡ front ++ at_loop f ∷ back
      → Sound (record (change s f release) { in_hand = front ++ back })
  releases-Sound front back f e =
      Counted-release f s.video.frames s.images (holders s) _
        (λ g. omega (arith, count-hand g s.in_hand front back (at_loop f) e)) h

  -- A step of the writers `c`, with the references in hand that are left.
  writes-Sound :
      (c : ℕ) (p q : Pipeline) (e : Event) (hand : List Hand)
      → get_elem? s.writers c ≡ some p
      → Writer.step p e ≡ moved q
      → ((g : ℕ) → count g (hands s.in_hand) ≡ count g (hands hand) + count g (received_by e))
      → Sound (record (write s c p q) { in_hand = hand })
  unfolding write
  writes-Sound c p q e hand there moves given =
      Counted-release_all (newly p q) s.video.frames s.images (holders s) _
        (λ g.
          omega (arith, given g, held_by-modify g s.writers c p q there, count-step p q e g moves))
        h

  cleans-Sound : Sound (record s { video = (clean_up s.video).0 })
  cleans-Sound =
      let old = s.video.session.last_png_frame in
      let gone = last_png_frame-clean_up s.video in
      rw (frames-clean_up s.video, release_frame-references old s.video.frames)
        (Counted-release_all (references old) s.video.frames s.images (holders s) _
          (λ g. omega (arith, ap (λ (o : Option ℕ). count g (references o)) gone)) h)

  pictures-Sound :
      (p : Picture) (x : Frame) (ts : ℕ) (clock : ℕ → ℕ)
      → Live x.image x.backing 1 x
      → Sound (add_picture s p x ts clock)
  unfolding add_picture
  pictures-Sound p x ts clock live =
      let n : ℕ = length s.video.frames in
      let v : Video = add_frame s.video x in
      let old = s.video.session.last_png_frame in
      let added =
        Counted-add x x.image s.video.frames s.images (holders s) (λ g. holders s g + one n g) live
          (λ g. refl) h in
      let kept =
        Counted-acquire n v.frames (s.images ++ x.image ∷ []) (λ g. holders s g + one n g)
          (λ g. holders s g + one n g + one n g) (omega (arith, one_self n)) (λ g. refl) added in
      let kept_last = last_png_frame-save v p n ts clock in
      rw (frames-save v p n ts clock, release_frame-references old (modify v.frames n acquire))
        (Counted-release_all (references old) (modify v.frames n acquire) (s.images ++ x.image ∷ [])
          (λ g. holders s g + one n g + one n g) _
          (λ g. omega (arith, ap (λ (o : Option ℕ). count g (references o)) kept_last)) kept)

Step-Sound : {s t : Stream} → Step s t → Sound s → Sound t
unfolding write
Step-Sound (joins s) h = joins-Sound s h
Step-Sound (greets s image) h = greets-Sound s h image at_greeting (λ f. refl)
Step-Sound (blanks s image) h = greets-Sound s h image at_loop (λ f. refl)
Step-Sound (pictures s p x ts clock e) h =
    pictures-Sound s h p x ts clock (new_frame-Live _ _ p.width p.height x e)
Step-Sound (acquires s front back f c e) h = acquires-Sound s h front back f c e
Step-Sound (sends s front back f c p q e there moves) h =
    writes-Sound s h c p q (arrives (some f)) (front ++ at_loop f ∷ back) there moves (λ g. omega (
      arith,
      count-hand g s.in_hand front back (at_send f c) e,
      count-hands g front back (at_loop f),
    ))
Step-Sound (welcomes s front back f c p q e there moves) h =
    writes-Sound s h c p q (arrives (some f)) (front ++ back) there moves
      (λ g. omega (arith, count-hand g s.in_hand front back (at_greeting f) e))
Step-Sound (releases s front back f e) h = releases-Sound s h front back f e
Step-Sound (writes s c p q e none_received there moves) h =
    writes-Sound s h c p q e s.in_hand there moves (λ g. omega (arith, ap (count g) none_received))
Step-Sound (reports s now) h = h
Step-Sound (cleans s) h = cleans-Sound s h

pub Reach-Sound : {s t : Stream} → Sound s → Reach s t → Sound t
Reach-Sound h here = h
Reach-Sound h (next r step) = Step-Sound step (Reach-Sound h r)

pub opened-Sound :
    (host : Text) (now : ℕ) (states : List (Text × DracState)) → Sound (opened host now states)
opened-Sound host now states = λ f. refl
