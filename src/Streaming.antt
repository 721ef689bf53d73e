-- ===== src/Streaming.antt =====
-- The references to the frames of one session, over all goroutines that hold them: videoUpdate of drac.go
-- with a frame in its hands, the PNG handler's lastPngFrame, and the two video writers of vnc.go behind
-- each client. What a goroutine does between two points where another can act is one step.
pub mod Counted
pub mod Kept
pub mod Holding
pub mod Ownership
pub mod Updates
pub mod Screens
pub mod Quantized
use dracd.Common.{Text, ℕ, ◌≡◌, List, [], ◌∷◌, ◌++◌, some, ok, length, get_elem?, modify}
use dracd.Frame.{Frame, new_frame, new_frame_from_bytes, acquire, release}
use dracd.Drac.Video.{
  Picture, Video, encode_png_ptr, add_frame, save_frame_for_animation, clean_up, report_ready,
}
use dracd.Drac.Sessions.{DracState, new_context}
use dracd.Vnc.Writer
use dracd.Vnc.Writer.Balance.{received_by, newly}
use dracd.Vnc.Writer.{Pipeline, Event, arrives, moved}

-- Where a goroutine stands that has a frame in hand, and holds references to it: videoUpdate at its loop with its own,
-- or at the send to a client with one more; and setupDracClient at the send of the connecting image to its client.
pub data Hand : Type 0 where
  at_loop : (frame : ℕ) → Hand
  at_send : (frame client : ℕ) → Hand
  at_greeting : (frame : ℕ) → Hand

abbrev pub held_in : Hand → List ℕ
held_in (at_loop f) = f ∷ []
held_in (at_send f c) = f ∷ f ∷ []
held_in (at_greeting f) = f ∷ []

-- All references of these goroutines.
abbrev pub hands : List Hand → List ℕ
hands [] = []
hands (h ∷ hs) = held_in h ++ hands hs

-- `in_hand` has an entry for each of these goroutines; the
-- writers are those of the clients that have come so far. `images` remembers of what each frame was made.
pub record Stream : Type 0 where
  pub video : Video
  pub in_hand : List Hand
  pub writers : List Pipeline
  pub images : List (List ℕ)

-- A session as setupDracClient opens it, before anyone has joined.
abbrev pub opened : Text → ℕ → List (Text × DracState) → Stream
opened host now states = record {
  video = record { frames = []; session = new_context host now; dracstates = states };
  in_hand = [];
  writers = [];
  images = [];
}

-- The calls of release, one after the other.
unfoldable pub release_all : List ℕ → List Frame → List Frame
release_all [] frames = frames
release_all (f ∷ fs) frames = release_all fs (modify frames f release)

-- The writers of a client go from `p` to `q`.
unfoldable pub write : Stream → ℕ → (p q : Pipeline) → Stream
write s c p q = record s {
  video = record s.video { frames = release_all (newly p q) s.video.frames };
  writers = modify s.writers c (λ _. q);
}

-- A frame of bytes of the program: the image that is shown while a session connects, or has no video.
unfoldable pub add_bytes : Stream → List ℕ → (ℕ → Hand) → Stream
add_bytes s image hand = record s {
  video = add_frame s.video (new_frame_from_bytes image 640 480);
  in_hand = hand (length s.video.frames) ∷ s.in_hand;
  images = s.images ++ image ∷ [];
}

-- A frame of the C library, which becomes lastPngFrame.
unfoldable pub add_picture : Stream → Picture → Frame → ℕ → (ℕ → ℕ) → Stream
add_picture s p x ts clock = record s {
  video = (save_frame_for_animation (add_frame s.video x) p (length s.video.frames) ts clock).0;
  in_hand = at_loop (length s.video.frames) ∷ s.in_hand;
  images = s.images ++ x.image ∷ [];
}

abbrev pub change : Stream → ℕ → (Frame → Frame) → Stream
change s f g = record s { video = record s.video { frames = modify s.video.frames f g } }

pub data Step : Stream → Stream → Type 0 where
  joins : (s : Stream) → Step s (record s { writers = s.writers ++ Writer.start ∷ [] })
  greets : (s : Stream) (image : List ℕ) → Step s (add_bytes s image at_greeting)
  blanks : (s : Stream) (image : List ℕ) → Step s (add_bytes s image at_loop)
  pictures :
      (s : Stream) (p : Picture) (x : Frame) (ts : ℕ) (clock : ℕ → ℕ)
      → new_frame (encode_png_ptr p).0 (encode_png_ptr p).1 p.width p.height ≡ ok x
      → Step s (add_picture s p x ts clock)
  acquires :
      (s : Stream) (front back : List Hand) (f c : ℕ)
      → s.in_hand ≡ front ++ at_loop f ∷ back
      → Step s (record (change s f acquire) { in_hand = front ++ at_send f c ∷ back })
  sends :
      (s : Stream) (front back : List Hand) (f c : ℕ) (p q : Pipeline)
      → s.in_hand ≡ front ++ at_send f c ∷ back
      → get_elem? s.writers c ≡ some p
      → Writer.step p (arrives (some f)) ≡ moved q
      → Step s (record (write s c p q) { in_hand = front ++ at_loop f ∷ back })
  welcomes :
      (s : Stream) (front back : List Hand) (f c : ℕ) (p q : Pipeline)
      → s.in_hand ≡ front ++ at_greeting f ∷ back
      → get_elem? s.writers c ≡ some p
      → Writer.step p (arrives (some f)) ≡ moved q
      → Step s (record (write s c p q) { in_hand = front ++ back })
  releases :
      (s : Stream) (front back : List Hand) (f : ℕ)
      → s.in_hand ≡ front ++ at_loop f ∷ back
      → Step s (record (change s f release) { in_hand = front ++ back })
  writes :
      (s : Stream) (c : ℕ) (p q : Pipeline) (e : Event)
      → received_by e ≡ []
      → get_elem? s.writers c ≡ some p
      → Writer.step p e ≡ moved q
      → Step s (write s c p q)
  reports : (s : Stream) (now : ℕ) → Step s (record s { video = report_ready now s.video })
  cleans : (s : Stream) → Step s (record s { video = (clean_up s.video).0 })

pub data Reach (s : Stream) : Stream → Type 0 where
  here : Reach s s
  next : {t u : Stream} → Reach s t → Step t u → Reach s u
