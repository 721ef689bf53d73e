-- ===== src/Gif.antt =====
-- encodeGif of gif.go: the frames that are given to the C library's WriteGif, each with how long it is
-- shown. The moment is the one at which the last frame is reached.
pub mod Delays
pub mod Given
pub mod Disabled
use dracd.Common.{
  suc, ℕ, zero, ◌-◌, ◌/◌, ◌%◌, ◌^◌, List, [], ◌∷◌, ℤ, pos, negsuc, leb, ltb, if◌then◌else◌, Outcome,
  ok, panics, index_out_of_range,
}
use dracd.Drac.Sessions.{AnimatedFrame}

-- The nanoseconds in 1/100 of a second.
abbrev pub hundredth : ℕ
hundredth = 10000000

-- The conversion of an int to a C.int of 32 bits.
c_int : ℤ → ℤ
c_int (pos n) = let m = n % 2 ^ 32 in if ltb m (2 ^ 31) then pos m else negsuc (2 ^ 32 - 1 - m)
c_int (negsuc n) = let m = n % 2 ^ 32 in if ltb m (2 ^ 31) then negsuc m else pos (2 ^ 32 - 1 - m)

opposite : ℕ → ℤ
opposite zero = pos 0
opposite (suc n) = negsuc n

-- `C.int(ts1.Sub(ts0).Nanoseconds() / 10000000)`, which rounds towards zero.
delay : (ts0 ts1 : ℕ) → ℤ
delay ts0 ts1 =
    if leb ts0 ts1
    then c_int (pos ((ts1 - ts0) / hundredth))
    else c_int (opposite ((ts0 - ts1) / hundredth))

-- The time of the frame that follows, or the present one.
abbrev pub next_ts : ℕ → List AnimatedFrame → ℕ
next_ts now [] = now
next_ts now (f ∷ rest) = f.ts

-- The loop over qFrames.
delays : ℕ → List AnimatedFrame → List (ℕ × ℤ)
delays now [] = []
delays now (f ∷ rest) = (f.qf, delay f.ts (next_ts now rest)) ∷ delays now rest

-- What WriteGif gets; `&qf[0]` panics if there are no frames.
unfoldable pub encode_gif : ℕ → List AnimatedFrame → Outcome (List (ℕ × ℤ))
unfolding delays delay c_int opposite
encode_gif now [] = panics index_out_of_range
encode_gif now (f ∷ rest) = ok (delays now (f ∷ rest))
