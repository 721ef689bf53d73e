-- ===== src/Streaming/Kept.antt =====
-- As long as a session has an animation, it keeps a frame for the PNG handler.
use dracd.Common.{◌≡◌, ℕ, [], some, ◌⊎◌, inl, inr}
use dracd.Drac.Video.{Video}
use dracd.Drac.Video.Keeping.{last_png_frame-save, animated_frame_list-clean_up}
use dracd.Streaming.{
  Stream, write, add_bytes, add_picture, Step, joins, greets, pictures, acquires, sends, releases,
  writes, reports, cleans, Reach, here, next, blanks, welcomes,
}

-- With an animation there is a frame for the PNG handler.
abbrev pub IsKept : Video → Type 0
IsKept v = (v.session.animated_frame_list ≡ []) ⊎ ((f : ℕ) × (v.session.last_png_frame ≡ some f))

Step-IsKept : {s t : Stream} → Step s t → IsKept s.video → IsKept t.video
unfolding write add_bytes add_picture
Step-IsKept (joins s) h = h
Step-IsKept (greets s image) h = h
Step-IsKept (blanks s image) h = h
Step-IsKept (pictures s p x ts clock e) h = inr (_, last_png_frame-save _ p _ ts clock)
Step-IsKept (acquires s front back f c' e) h = h
Step-IsKept (sends s front back f c p q e there moves) h = h
Step-IsKept (welcomes s front back f c p q e there moves) h = h
Step-IsKept (releases s front back f e) h = h
Step-IsKept (writes s c p q e unreceived there moves) h = h
Step-IsKept (reports s now) h = h
Step-IsKept (cleans s) h = inl (animated_frame_list-clean_up s.video)

pub Reach-IsKept : {s t : Stream} → IsKept s.video → Reach s t → IsKept t.video
Reach-IsKept h here = h
Reach-IsKept h (next r step) = Step-IsKept step (Reach-IsKept h r)
