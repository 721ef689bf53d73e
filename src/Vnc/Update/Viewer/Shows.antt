-- ===== src/Vnc/Update/Viewer/Shows.antt =====
-- What the viewer shows when it reads what send_vnc_frame wrote.
use dracd.Common.{
  ℕ, ◌^◌, ◌<◌, ◌≡◌, refl, ap, ◌∙◌, inl, inr, true, not, ◌||◌, some, List, [], ◌∷◌, ◌++◌, map, arith,
  leb, ◌==◌, if◌then◌else◌, Bool-cases, length, take-length, drop-length, length-append,
  append_assoc, append-nil, All,
}
use dracd.Common.Bytes.{of_be16-be16, of_be32-be32}
use dracd.Vnc.Update.{
  Client, desktop_size, tight, rect_header, compact_size, frame_rect, send_vnc_frame,
}
use dracd.Vnc.Update.Viewer.{
  read_compact, read_header, Screen, read_image, read_contents, view_update, Views, done, next,
}

-- A length below 2^21 is read back from the bytes that carry it.
read_compact-compact_size :
    (size : ℕ) (rest : List ℕ)
    → size < 2 ^ 21
    → read_compact (compact_size size ++ rest) ≡ some (size, rest)
unfolding read_compact compact_size
read_compact-compact_size size rest h = ground arith

read_header-rect_header :
    (w h e : ℕ) (rest : List ℕ)
    → w < 2 ^ 16
    → h < 2 ^ 16
    → e < 2 ^ 32
    → read_header (rect_header w h e ++ rest)
      ≡ some (record { width = w; height = h; encoding = e }, rest)
unfolding read_header rect_header
read_header-rect_header w h e rest hw hh he =
    rw (of_be16-be16 w hw, of_be16-be16 h hh, of_be32-be32 e he)

leb-length-append {ℓ} : {A : Type ℓ} (xs ys : List A) → leb (length xs) (length (xs ++ ys)) ≡ true
leb-length-append xs ys = ground (arith, length-append xs ys)

read_image_lem :
    (s : Screen) (frame rest : List ℕ)
    → length frame < 2 ^ 21
    → read_image s (0xa0 ∷ (compact_size (length frame) ++ (frame ++ rest)))
      ≡ some (record s { images = s.images ++ frame ∷ [] }, rest)
unfolding read_image
read_image_lem s frame rest small = rw (
  read_compact-compact_size (length frame) (frame ++ rest) small,
  leb-length-append frame rest,
  take-length frame rest,
  drop-length frame rest,
)

-- A frame rectangle of the screen's size shows its image.
view_update-frame_rect :
    (s : Screen) (w h : ℕ) (frame rest : List ℕ)
    → s.width ≡ w
    → s.height ≡ h
    → length frame < 2 ^ 21
    → w < 2 ^ 16
    → h < 2 ^ 16
    → view_update s (frame_rect frame w h ++ rest)
      ≡ some (record { width = w; height = h; images = s.images ++ frame ∷ [] }, rest)
unfolding view_update frame_rect read_contents
view_update-frame_rect s w h frame rest ew eh small hw hh =
    rw
      (
        append_assoc (rect_header w h tight),
        append_assoc (compact_size (length frame)),
        read_header-rect_header w h tight (0xa0 ∷ (compact_size (length frame) ++ (frame ++ rest)))
            hw hh (omega arith),
      )
      (ground (arith, read_image_lem s frame rest small))

view_update-resize :
    (s : Screen) (w h : ℕ) (rest : List ℕ)
    → w < 2 ^ 16
    → h < 2 ^ 16
    → view_update s (rect_header w h desktop_size ++ rest)
      ≡ some (record s { width = w; height = h }, rest)
unfolding view_update read_contents
view_update-resize s w h rest hw hh =
    rw (read_header-rect_header w h desktop_size rest hw hh (omega arith))

pub record Frame : Type 0 where
  pub image : List ℕ
  pub width : ℕ
  pub height : ℕ

-- A frame that the encoding can carry.
abbrev pub Fits : Frame → Type 0
Fits f = (length f.image < 2 ^ 21) × (f.width < 2 ^ 16) × (f.height < 2 ^ 16)

-- The frames that the video writer sends to a client, one after the other.
pub send_all : Client → List Frame → Client
send_all c [] = c
send_all c (f ∷ fs) = send_all (send_vnc_frame c f.image f.width f.height) fs

-- What one more frame adds to the bytes written.
added : (width height : ℕ) → Frame → List ℕ
added width height f =
    if not (height == f.height) || not (width == f.width)
    then rect_header f.width f.height desktop_size ++ frame_rect f.image f.width f.height
    else frame_rect f.image f.width f.height

sent : (width height : ℕ) → List Frame → List ℕ
sent w h [] = []
sent w h (f ∷ fs) = added w h f ++ sent f.width f.height fs

send_vnc_frame-added :
    (c : Client) (f : Frame)
    → send_vnc_frame c f.image f.width f.height ≡ record {
      width = f.width;
      height = f.height;
      written = c.written ++ added c.width c.height f;
    }
unfolding send_vnc_frame added
send_vnc_frame-added c f = ground arith

written-send_all :
    (c : Client) (fs : List Frame) → (send_all c fs).written ≡ c.written ++ sent c.width c.height fs
unfolding send_all sent
written-send_all c [] = ground (arith, append-nil c.written)
written-send_all c (f ∷ fs) =
    ap (λ (d : Client). (send_all d fs).written) (send_vnc_frame-added c f)
    ∙ written-send_all
        (record {
          width = f.width;
          height = f.height;
          written = c.written ++ added c.width c.height f;
        })
        fs
    ∙ append_assoc c.written (added c.width c.height f) (sent f.width f.height fs)

abbrev pub images : List Frame → List (List ℕ)
images = map (λ f. f.image)

-- The screen after some frames, with the images that they add.
after : Screen → List Frame → Screen
after s [] = s
after s (f ∷ fs) =
    after (record { width = f.width; height = f.height; images = s.images ++ f.image ∷ [] }) fs

Views-resized :
    (s : Screen) (f : Frame) {rest : List ℕ} {t : Screen}
    → Fits f
    → Views
        (record { width = f.width; height = f.height; images = s.images ++ f.image ∷ [] })
        rest
        t
    → Views s
        ((rect_header f.width f.height desktop_size ++ frame_rect f.image f.width f.height) ++ rest)
        t
Views-resized s f {rest} fits v = rw (append_assoc (rect_header f.width f.height desktop_size)) (
    next (view_update-resize s f.width f.height _ fits.1 fits.2) (
      next
        (view_update-frame_rect (record s { width = f.width; height = f.height }) f.width f.height
          f.image rest refl refl fits.0 fits.1 fits.2)
        v))

Views-added :
    (s : Screen) (f : Frame) {rest : List ℕ} {t : Screen}
    → Fits f
    → Views
        (record { width = f.width; height = f.height; images = s.images ++ f.image ∷ [] })
        rest
        t
    → Views s (added s.width s.height f ++ rest) t
unfolding added
Views-added s f {rest} {t} fits v =
    elim (Bool-cases (not (s.height == f.height) || not (s.width == f.width))) [
      | inl changed ↦ rw changed (Views-resized s f fits v)
      | inr same ↦
          let e : s.width ≡ f.width = ground arith in
          let e' : s.height ≡ f.height = ground arith in
          rw same (
            next (view_update-frame_rect s f.width f.height f.image rest e e' fits.0 fits.1 fits.2)
              v)
    ]

Views-sent :
    (s : Screen) (fs : List Frame) → All Fits fs → Views s (sent s.width s.height fs) (after s fs)
unfolding sent after
Views-sent s [] fits = done
Views-sent s (f ∷ fs) fits = Views-added s f fits.0 (Views-sent _ fs fits.1)

after_lem :
    (s : Screen) (c : Client) (fs : List Frame)
    → s.width ≡ c.width
    → s.height ≡ c.height
    → after s fs ≡ record {
      width = (send_all c fs).width;
      height = (send_all c fs).height;
      images = s.images ++ images fs;
    }
unfolding after send_all send_vnc_frame
after_lem s c [] ew eh = ground (arith, append-nil s.images)
after_lem s c (f ∷ fs) ew eh =
    after_lem (record { width = f.width; height = f.height; images = s.images ++ f.image ∷ [] })
      (send_vnc_frame c f.image f.width f.height) fs (ground arith) (ground arith)
    ∙ ap
        (λ (l : List (List ℕ)). record {
          width = (send_all (send_vnc_frame c f.image f.width f.height) fs).width;
          height = (send_all (send_vnc_frame c f.image f.width f.height) fs).height;
          images = l;
        })
        (append_assoc s.images (f.image ∷ []) (images fs))

-- A viewer that starts at the client's size and reads what send_vnc_frame wrote for some frames, each
-- of fewer than 2^21 bytes and with sides below 2^16, reads it to the end, shows exactly the images of
-- the frames, in order, each on a screen of its frame's size, and ends at the client's size.
pub Views-send_all :
    (w h : ℕ) (fs : List Frame)
    → All Fits fs
    → let c : Client = send_all (record { width = w; height = h; written = [] }) fs in
      Views
        (record { width = w; height = h; images = [] })
        c.written
        (record { width = c.width; height = c.height; images = images fs })
Views-send_all w h fs fits =
    let c : Client = record { width = w; height = h; written = [] } in
    let s : Screen = record { width = w; height = h; images = [] } in
    rw (written-send_all c fs, ← after_lem s c fs refl refl) (Views-sent s fs fits)
