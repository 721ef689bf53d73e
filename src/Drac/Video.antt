-- ===== src/Drac/Video.antt =====
-- videoUpdate and saveFrameForAnimation of drac.go, the end of dracHandler, and encodePngPtr of glue.go.
-- Frames lie in a list, and a reference is an index. The image that the C library decodes, its PNG and
-- the quantized frame are inputs.
pub mod Keeping
pub mod Trimming
use dracd.Common.{
  Text, insert, ℕ, suc, ◌+◌, ◌-◌, ◌*◌, List, [], ◌∷◌, ◌++◌, Option, none, some, Bool, true, false,
  ℤ, pos, negsuc, length, modify, map, ltb, if◌then◌else◌, Outcome, ok, panics,
}
use dracd.Frame.{Frame, new_frame, new_frame_from_bytes, acquire, release}
use dracd.Drac.Sessions.{DracCtx, AnimatedFrame, DracState, ready}

-- What incoming_data_video and incoming_data_ctrl report of the video.
pub data Report : Type 0 where
  new_frame_ready video_is_down : Report

-- What the C library gives for a frame: getFrame, encode_png and quantizeFrame.
pub record Picture : Type 0 where
  pub width : ℕ
  pub height : ℕ
  pub png : Option (List ℕ)
  pub png_size : ℕ
  pub qf : ℕ

-- encodePngPtr: the size is a C.size_t, so the test for an error never holds.
unfoldable pub encode_png_ptr : Picture → Option (List ℕ) × ℤ
encode_png_ptr p = if ltb p.png_size 0 then (none, negsuc 0) else (p.png, pos p.png_size)

-- The frames, the session, and dracstates.
pub record Video : Type 0 where
  pub frames : List Frame
  pub session : DracCtx
  pub dracstates : List (Text × DracState)

abbrev pub five_seconds : ℕ
five_seconds = 5 * 1000000000

-- `for dracCtx.animatedFrameList.Len() > 1`: frames older than five seconds go, from the front, up to
-- the first that is not; one stays. The round k sees the time `clock k`. The quantized frames that are
-- freed, and the list that is left.
unfoldable pub trim : (ℕ → ℕ) → ℕ → List AnimatedFrame → List ℕ × List AnimatedFrame
trim clock k [] = ([], [])
trim clock k (f ∷ []) = ([], f ∷ [])
trim clock k (f ∷ g ∷ rest) =
    let (freed, left) = trim clock (suc k) (g ∷ rest) in
    if ltb five_seconds (clock k - f.ts) then (f.qf ∷ freed, left) else ([], f ∷ g ∷ rest)

-- `if oldFrame != nil { oldFrame.release() }`
unfoldable pub release_frame : Option ℕ → List Frame → List Frame
unfolding release
release_frame none frames = frames
release_frame (some f) frames = modify frames f release

-- The first frame closes firstFrameEvent.
abbrev pub announce : DracCtx → DracCtx
announce c =
    if c.sent_first_frame
    then c
    else record c { sent_first_frame = true; first_frame_closes = c.first_frame_closes + 1 }

-- saveFrameForAnimation, for the frame `f`, at the time `ts`; with the quantized frames that it frees.
unfoldable pub save_frame_for_animation : Video → Picture → ℕ → ℕ → (ℕ → ℕ) → Video × List ℕ
save_frame_for_animation v p f ts clock =
    let new : AnimatedFrame = record { qf = p.qf; ts = ts } in
    let (freed, kept) = trim clock 0 (v.session.animated_frame_list ++ new ∷ []) in
    (
      record v {
        frames = release_frame v.session.last_png_frame (modify v.frames f acquire);
        session =
            announce (record v.session { last_png_frame = some f; animated_frame_list = kept });
      },
      freed,
    )

-- What videoUpdate does behind the making of the frame, call by call, since the others go on meanwhile:
-- `frame.acquire()`, the send on a client's videoChannel, `frame.release()`, and the report to dracstates.
pub data Call : Type 0 where
  acquires : (frame : ℕ) → Call
  sends : (client frame : ℕ) → Call
  releases : (frame : ℕ) → Call
  reports : (now : ℕ) → Call

-- The loop over the clients: each gets a reference of its own, which is sent before the next is acquired. The
-- clients are those that the list has when the loop begins.
unfoldable pub offer : List ℕ → ℕ → List Call → List Call
offer [] f rest = rest
offer (client ∷ clients) f rest = acquires f ∷ sends client f ∷ offer clients f rest

-- From the loop over the clients to the end.
abbrev pub deliver : DracCtx → ℕ → ℕ → List Call
deliver c f now = offer c.vnc_clients f (releases f ∷ reports now ∷ [])

-- The state of the host at the end of videoUpdate.
abbrev pub report_ready : ℕ → Video → Video
report_ready now v = record v {
  dracstates = insert v.session.host (record { state = ready; time = now }) v.dracstates;
}

-- The new frame goes to the end of the list.
abbrev pub add_frame : Video → Frame → Video
add_frame v f = record v { frames = v.frames ++ f ∷ [] }

-- A frame of the C library, which has been encoded: it is kept, with the quantized frames that this frees, and
-- then sent.
unfoldable pub show_frame :
    Video → Picture → (ts now : ℕ) → (ℕ → ℕ) → Outcome Frame → Outcome (Video × List Call × List ℕ)
show_frame v p ts now clock (panics e) = panics e
show_frame v p ts now clock (ok frame) =
    let f : ℕ = length v.frames in
    let (v', freed) = save_frame_for_animation (add_frame v frame) p f ts clock in
    ok (v', deliver v'.session f now, freed)

-- videoUpdate, up to its loop, and the calls from there on; `waiting` is the image waiting_for_video_signal_png.
-- The frame comes at `ts`, and the host is ready at `now`.
unfoldable pub video_update :
    Video
    → Report
    → Picture
    → (waiting : List ℕ) → (ts now : ℕ) → (ℕ → ℕ)
    → Outcome (Video × List Call × List ℕ)
unfolding show_frame save_frame_for_animation offer trim release_frame encode_png_ptr acquire
    release new_frame new_frame_from_bytes
video_update v new_frame_ready p waiting ts now clock =
    let (png, size) = encode_png_ptr p in
    show_frame v p ts now clock (new_frame png size p.width p.height)
video_update v video_is_down p waiting ts now clock =
    let f : ℕ = length v.frames in
    ok (add_frame v (new_frame_from_bytes waiting 640 480), deliver v.session f now, [])

-- dracHandler behind its loop: waiting requests are let go, all quantized frames are freed, and so is
-- the last frame's reference; and whether the C context is freed.
unfoldable pub clean_up : Video → Video × List ℕ × Bool
clean_up v =
    let c : DracCtx = announce v.session in
    (
      record v {
        frames = release_frame c.last_png_frame v.frames;
        session = record c { animated_frame_list = []; last_png_frame = none };
      },
      map (λ f. f.qf) c.animated_frame_list,
      elim c.ctx [ none ↦ false | some _ ↦ true ],
    )
