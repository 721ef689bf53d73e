-- ===== src/Gif/Disabled.antt =====
-- gif_disabled.go: the build without the GIF library.
use dracd.Common.{ℕ, List, Option, none, Bool, false, ℤ, pos}
use dracd.Drac.Sessions.{AnimatedFrame}

-- GIF_SUPPORT_ENABLED.
abbrev pub gif_support_enabled : Bool
gif_support_enabled = false

-- QF is an empty struct, with one value.
abbrev pub quantize_frame : (frame : List ℕ) → (width height : ℕ) → ℕ
quantize_frame frame width height = 0

abbrev pub encode_gif : List AnimatedFrame → Option (List ℕ) × ℤ
encode_gif frames = (none, pos 0)
