-- ===== src/Vnc/Update.antt =====
-- sendVncFrame of vnc.go: a framebuffer update with one rectangle in Tight encoding that holds a
-- PNG, after one that announces a new desktop size where the size has changed. The bytes written
-- are kept in order; `bw.Flush` writes none. `n & 0x7f` is `n % 128`, `n >> 7` is `n / 128`, and
-- `n | 0x80` is `n + 128` for n below 128.
pub mod Viewer
pub mod Faults
use dracd.Common.{
  ℕ, ◌+◌, ◌/◌, ◌%◌, List, [], ◌∷◌, ◌++◌, not, ◌||◌, leb, ◌==◌, if◌then◌else◌, length,
}
use dracd.Common.Bytes.{be16, be32}

-- The part of VncClientCtx that the video writer uses. `written` is what went out through bw.
pub record Client : Type 0 where
  pub width : ℕ
  pub height : ℕ
  pub written : List ℕ

-- int32(-223) and int32(7) as the bytes of a uint32: DesktopSize and Tight.
abbrev pub desktop_size : ℕ
desktop_size = 0xffffff21

abbrev pub tight : ℕ
tight = 7

-- The header of an update with one rectangle at the origin.
pub rect_header : (width height encoding : ℕ) → List ℕ
rect_header width height encoding =
    0 ∷ 0 ∷ be16 1 ++ be16 0 ++ be16 0 ++ be16 width ++ be16 height ++ be32 encoding

-- The variable csize: one to three bytes with seven bits in each, and none from 4194304 on.
unfoldable pub compact_size : ℕ → List ℕ
compact_size size =
    if leb size 127
    then size % 256 ∷ []
    else if leb size 16383
    then (size % 128 + 128) ∷ (size / 128 % 128) ∷ []
    else if leb size 4194303
    then (size % 128 + 128) ∷ (size / 128 % 128 + 128) ∷ (size / 16384 % 128) ∷ []
    else []

-- The rectangle that carries the frame.
pub frame_rect : List ℕ → (width height : ℕ) → List ℕ
unfolding rect_header compact_size
frame_rect frame width height =
    rect_header width height tight ++ (0xa0 ∷ (compact_size (length frame) ++ frame))

pub send_vnc_frame : Client → List ℕ → (width height : ℕ) → Client
unfolding rect_header frame_rect
send_vnc_frame c frame width height =
    if not (c.height == height) || not (c.width == width)
    then record {
      width = width;
      height = height;
      written =
          c.written ++ (rect_header width height desktop_size ++ frame_rect frame width height);
    }
    else record c { written = c.written ++ frame_rect frame width height }
