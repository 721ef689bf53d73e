-- ===== src/Streaming/Screens/Told.antt =====
-- Each client is shown the images of its frames.
use dracd.Common.{
  get_elem?-append, ∷-eq, ℕ, zero, suc, ◌≡◌, refl, sym, ap, ap₂, ◌∙◌, subst, inl, inr, List, [],
  ◌∷◌, ◌++◌, map, append-nil, All, Option, none, some, Text, get_elem?, get_elem?-modify, modify,
  if◌then◌else◌, ◌==◌, Bool-cases, arith,
}
use mathlib.Core.List.{map-append}
use dracd.Frame.{Frame}
use dracd.Drac.Sessions.{DracState}
use dracd.Vnc.Update.{Client}
use dracd.Vnc.Update.Viewer.{Views}
use dracd.Vnc.Update.Viewer.Shows
use dracd.Vnc.Update.Viewer.Shows.{Fits, send_all, images, Views-send_all}
use dracd.Vnc.Writer
use dracd.Vnc.Writer.{Pipeline, Event, arrives, moved}
use dracd.Vnc.Writer.Showing.{newly_shown, step-ShowsOne}
use dracd.Streaming.{
  Stream, opened, write, add_bytes, add_picture, Step, joins, greets, pictures, acquires, sends,
  releases, writes, reports, cleans, Reach, here, next, blanks, welcomes,
}
use dracd.Streaming.Holding.{Sound, Reach-Sound, opened-Sound}
use dracd.Streaming.Ownership.{IsWhole, held-IsWhole, held_by-get_elem?}
use dracd.Streaming.Screens.{as_sent, deref, step_sent, sent_by}

-- The references `shown` are those of the frames `sent`, by the images that they were made of.
abbrev pub Matches : List (List ℕ) → List ℕ → List Shows.Frame → Type 0
Matches made shown sent =
    map (λ (f : ℕ). get_elem? made f) shown ≡ map (λ (x : Shows.Frame). some x.image) sent

Matches-append :
    (made : List (List ℕ)) (a b : List ℕ) (x y : List Shows.Frame)
    → Matches made a x
    → Matches made b y
    → Matches made (a ++ b) (x ++ y)
Matches-append made a b x y h k =
    map-append (λ (f : ℕ). get_elem? made f) a b
    ∙ ap₂ ◌++◌ h k
    ∙ sym (map-append (λ (z : Shows.Frame). some z.image) x y)

-- Further images change nothing.
Matches-more :
    (made more : List (List ℕ)) (shown : List ℕ) (sent : List Shows.Frame)
    → Matches made shown sent
    → Matches (made ++ more) shown sent
Matches-more made more [] [] e = refl
Matches-more made more [] (x ∷ sent) e = absurd (cc)
Matches-more made more (f ∷ shown) [] e = absurd (cc)
Matches-more made more (f ∷ shown) (x ∷ sent) e =
    let both = ∷-eq e in
    ap₂ ◌∷◌ (get_elem?-append made more f x.image both.0) (Matches-more made more shown sent both.1)

-- What has been sent to a client, by its writers; nothing to a client that has not come.
abbrev pub Told : List (List ℕ) → List Shows.Frame → Option Pipeline → Type 0
Told made sent none = sent ≡ []
Told made sent (some p) = Matches made p.shown sent

Told-more :
    (made more : List (List ℕ)) (sent : List Shows.Frame) (o : Option Pipeline)
    → Told made sent o
    → Told (made ++ more) sent o
Told-more made more sent none h = h
Told-more made more sent (some p) h = Matches-more made more p.shown sent h

deref_one :
    (frames : List Frame) (f : ℕ) (x : Frame)
    → get_elem? frames f ≡ some x
    → deref frames (f ∷ []) ≡ as_sent x ∷ []
unfolding deref
deref_one frames f x e = ground arith

-- A frame that is whole is sent with its image.
Matches-one :
    (s : Stream) (f : ℕ) → IsWhole s f → Matches s.images (f ∷ []) (deref s.video.frames (f ∷ []))
Matches-one s f (x, there, made, whole) =
    ap (λ o. o ∷ []) made
    ∙ sym (ap (map (λ (z : Shows.Frame). some z.image)) (deref_one s.video.frames f x there))

module _ (s : Stream) (h : Sound s) (d : ℕ) (p q : Pipeline) (e : Event)
    (there : get_elem? s.writers d ≡ some p) (moves : Writer.step p e ≡ moved q) where
  -- The writers' own step.
  Told-step :
      (sent : List Shows.Frame)
      → Matches s.images p.shown sent
      → Matches s.images q.shown (sent ++ deref s.video.frames (newly_shown p q))
  unfolding deref
  Told-step sent k = elim (step-ShowsOne p q e moves) [
    | inl (nothing, same) ↦ rw (nothing, same, append-nil sent) k
    | inr (f, one_frame, shown, holds) ↦
        rw (one_frame, shown)
          (Matches-append s.images p.shown (f ∷ []) sent (deref s.video.frames (f ∷ [])) k (
            Matches-one s f
              (held-IsWhole s f h (omega (arith, holds, held_by-get_elem? f s.writers d p there)))))
  ]

  Told-write :
      (c : ℕ) (sent : List Shows.Frame)
      → Told s.images sent (get_elem? s.writers c)
      → Told s.images
          (sent ++ (if d == c then deref s.video.frames (newly_shown p q) else []))
          (get_elem? (modify s.writers d (λ _. q)) c)
  Told-write c sent k = elim (Bool-cases (d == c)) [
    | inl same ↦
        let before : get_elem? s.writers c ≡ some p = ground (arith, there) in
        let after : get_elem? (modify s.writers d (λ _. q)) c ≡ some q =
          ground (arith, get_elem?-modify s.writers d c (λ _. q)) in
        rw (same, after) (Told-step sent (subst (Told s.images sent) before k))
    | inr apart ↦
        let kept : get_elem? (modify s.writers d (λ _. q)) c ≡ get_elem? s.writers c =
          ground (arith, get_elem?-modify s.writers d c (λ _. q)) in
        rw (apart, kept, append-nil sent) k
  ]

Told-joins :
    (made : List (List ℕ)) (ws : List Pipeline) (c : ℕ) (sent : List Shows.Frame)
    → Told made sent (get_elem? ws c)
    → Told made sent (get_elem? (ws ++ Writer.start ∷ []) c)
Told-joins made [] zero sent k = ap (map (λ (z : Shows.Frame). some z.image)) (sym k)
Told-joins made [] (suc c) sent k = k
Told-joins made (w ∷ ws) zero sent k = k
Told-joins made (w ∷ ws) (suc c) sent k = Told-joins made ws c sent k

Step-Told :
    {s t : Stream} (st : Step s t) (c : ℕ) (sent : List Shows.Frame)
    → Sound s
    → Told s.images sent (get_elem? s.writers c)
    → Told t.images (sent ++ step_sent st c) (get_elem? t.writers c)
unfolding step_sent write add_bytes add_picture
Step-Told (joins s) c sent h k = rw (append-nil sent) (Told-joins s.images s.writers c sent k)
Step-Told (greets s image) c sent h k =
    rw (append-nil sent) (Told-more s.images (image ∷ []) sent (get_elem? s.writers c) k)
Step-Told (blanks s image) c sent h k =
    rw (append-nil sent) (Told-more s.images (image ∷ []) sent (get_elem? s.writers c) k)
Step-Told (pictures s p x ts clock e) c sent h k =
    rw (append-nil sent) (Told-more s.images (x.image ∷ []) sent (get_elem? s.writers c) k)
Step-Told (acquires s front back f c' e) c sent h k = rw (append-nil sent) k
Step-Told (sends s front back f d p q e there moves) c sent h k =
    Told-write s h d p q (arrives (some f)) there moves c sent k
Step-Told (welcomes s front back f d p q e there moves) c sent h k =
    Told-write s h d p q (arrives (some f)) there moves c sent k
Step-Told (releases s front back f e) c sent h k = rw (append-nil sent) k
Step-Told (writes s d p q e unreceived there moves) c sent h k =
    Told-write s h d p q e there moves c sent k
Step-Told (reports s now) c sent h k = rw (append-nil sent) k
Step-Told (cleans s) c sent h k = rw (append-nil sent) k

module _ (host : Text) (now : ℕ) (states : List (Text × DracState)) where
  Reach-Told :
      {s : Stream} (r : Reach (opened host now states) s) (c : ℕ)
      → Told s.images (sent_by r c) (get_elem? s.writers c)
  unfolding sent_by
  Reach-Told here c = refl
  Reach-Told (next r st) c =
      Step-Told st c (sent_by r c) (Reach-Sound (opened-Sound host now states) r) (Reach-Told r c)

-- In a session that setupDracClient has opened, whatever the goroutines have done: the frames that were sent to
-- a client are those that its videoWriter has taken, one after the other, each with the image that it was made
-- of; and a viewer that reads what sendVncFrame has written for them, if each can be carried, shows exactly
-- these images, in this order.
pub sent_by-Views :
    (host : Text) (now : ℕ) (states : List (Text × DracState)) (s : Stream) (c w h : ℕ)
    (p : Pipeline) (r : Reach (opened host now states) s)
    → get_elem? s.writers c ≡ some p
    → All Fits (sent_by r c)
    → let client : Client =
        send_all (record { width = w; height = h; written = [] }) (sent_by r c) in
      Matches s.images p.shown (sent_by r c)
      × Views
          (record { width = w; height = h; images = [] })
          client.written
          (record { width = client.width; height = client.height; images = images (sent_by r c) })
sent_by-Views host now states s c w h p r there fits = (
  subst (Told s.images (sent_by r c)) there (Reach-Told host now states r c),
  Views-send_all w h (sent_by r c) fits,
)
