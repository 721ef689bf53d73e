-- ===== src/Streaming/Screens.antt =====
-- What the clients of a session see: the frames that sendVncFrame sends to each, over all that the goroutines
-- of the session do.
pub mod Told
use dracd.Common.{ℕ, List, [], ◌∷◌, ◌++◌, none, some, get_elem?, if◌then◌else◌, ◌==◌}
use dracd.Frame.{Frame}
use dracd.Vnc.Update.Viewer.Shows
use dracd.Vnc.Writer.Showing.{newly_shown}
use dracd.Streaming.{Stream, Step, sends, writes, Reach, here, next, blanks, welcomes}

-- A frame as videoWriter passes it to sendVncFrame.
abbrev pub as_sent : Frame → Shows.Frame
as_sent x = record { image = x.image; width = x.width; height = x.height }

-- The frames behind some references, as they are in memory.
unfoldable pub deref : List Frame → List ℕ → List Shows.Frame
deref frames [] = []
deref frames (f ∷ fs) =
    let rest = deref frames fs in
    elim (get_elem? frames f) [ none ↦ rest | some x ↦ as_sent x ∷ rest ]

-- What a step sends to the client `c`: videoWriter reads the frames before it releases them.
unfoldable pub step_sent : {s t : Stream} → Step s t → ℕ → List Shows.Frame
step_sent (sends s front back f d p q e there moves) c =
    if d == c then deref s.video.frames (newly_shown p q) else []
step_sent (welcomes s front back f d p q e there moves) c =
    if d == c then deref s.video.frames (newly_shown p q) else []
step_sent (writes s d p q e unreceived there moves) c =
    if d == c then deref s.video.frames (newly_shown p q) else []
step_sent _ c = []

-- What has been sent to the client `c`, in order.
unfoldable pub sent_by : {s t : Stream} → Reach s t → ℕ → List Shows.Frame
sent_by here c = []
sent_by (next r step) c = sent_by r c ++ step_sent step c
