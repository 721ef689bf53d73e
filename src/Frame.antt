-- ===== src/Frame.antt =====
-- frame.go: an image with a count of references to it. `backing` says that the bytes lie in memory of
-- the C library, and `frees` counts the calls of cFree on it.
pub mod Counting
use dracd.Common.{
  ℕ, ◌+◌, ◌^◌, List, [], Option, none, some, Bool, true, false, ◌&&◌, ℤ, pos, negsuc, succ_ℤ,
  pred_ℤ, leb, take, if◌then◌else◌, Outcome, ok, panics, nil_dereference, slice_out_of_range, ◌==◌,
}

pub record Frame : Type 0 where
  pub image : List ℕ
  pub backing : Bool
  pub width : ℕ
  pub height : ℕ
  pub refcount : ℤ
  pub frees : ℕ

framed : List ℕ → Bool → (width height : ℕ) → Frame
framed image backing width height = record {
  image = image;
  backing = backing;
  width = width;
  height = height;
  refcount = pos 1;
  frees = 0;
}

-- `(*[1 << 30]byte)(frameData)[:len:len]` of a buffer of the C library, none for a null pointer.
unfoldable pub slice : Option (List ℕ) → ℤ → Outcome (List ℕ)
slice none size = panics nil_dereference
slice (some buffer) (negsuc n) = panics slice_out_of_range
slice (some buffer) (pos n) =
    if leb n (2 ^ 30) then ok (take n buffer) else panics slice_out_of_range

with_image : Outcome (List ℕ) → (width height : ℕ) → Outcome Frame
with_image (ok image) width height = ok (framed image true width height)
with_image (panics p) width height = panics p

unfoldable pub new_frame : Option (List ℕ) → ℤ → (width height : ℕ) → Outcome Frame
unfolding slice with_image framed
new_frame buffer size width height = with_image (slice buffer size) width height

unfoldable pub new_frame_from_bytes : List ℕ → (width height : ℕ) → Frame
unfolding framed
new_frame_from_bytes image width height = framed image false width height

unfoldable pub acquire : Frame → Frame
acquire f = record f { refcount = succ_ℤ f.refcount }

abbrev is_zero : ℤ → Bool
is_zero (pos n) = n == 0
is_zero (negsuc n) = false

unfoldable pub release : Frame → Frame
release f =
    let count = pred_ℤ f.refcount in
    if is_zero count && f.backing
    then record f { refcount = count; image = []; frees = f.frees + 1 }
    else record f { refcount = count }
