-- ===== src/Gif/Delays.antt =====
-- How long an animation lasts.
use dracd.Common.{
  subst, ℕ, ◌+◌, ◌-◌, ◌*◌, ◌/◌, ◌^◌, ◌≤◌, ◌<◌, ◌≡◌, List, [], ◌∷◌, ℤ, pos, pos_part, ok, length,
  arith,
}
use dracd.Drac.Sessions.{AnimatedFrame}
use dracd.Gif.{hundredth, c_int, delay, next_ts, delays, encode_gif}

-- Each frame comes before the next one, and the last one before `now`.
abbrev InOrder : ℕ → List AnimatedFrame → Type 0
InOrder now [] = Unit
InOrder now (f ∷ rest) = (f.ts ≤ next_ts now rest) × InOrder now rest

-- The time that an animation takes, in 1/100 of a second.
abbrev pub total : List (ℕ × ℤ) → ℕ
total [] = 0
total ((qf, d) ∷ gif) = pos_part d + total gif

InOrder-now :
    (now : ℕ) (frames : List AnimatedFrame) → InOrder now frames → next_ts now frames ≤ now
InOrder-now now [] h = omega arith
InOrder-now now (f ∷ rest) h = omega (arith, h.0, InOrder-now now rest h.1)

delay_lem : (a b : ℕ) → a ≤ b → b < a + 2 ^ 31 * hundredth → delay a b ≡ pos ((b - a) / hundredth)
unfolding delay c_int
delay_lem a b h k = ground arith

-- The delays add up to what lies between the first frame and `now`, up to 1/100 of a second each.
total-delays :
    (now : ℕ) (frames : List AnimatedFrame)
    → InOrder now frames
    → now < next_ts now frames + 2 ^ 31 * hundredth
    → (total (delays now frames) * hundredth + next_ts now frames ≤ now)
      × (now ≤ next_ts now frames + (total (delays now frames) + length frames) * hundredth)
unfolding delays
total-delays now [] h k = (omega arith, omega arith)
total-delays now (f ∷ rest) h k =
    let after : next_ts now rest ≤ now = InOrder-now now rest h.1 in
    let ih = total-delays now rest h.1 (omega (arith, h.0)) in
    rw (delay_lem f.ts (next_ts now rest) h.0 (omega (arith, after)))
      (omega (arith, ih.0, h.0), omega (arith, ih.1, h.0))

-- An animation of frames in order, within 2^31 hundredths of a second, lasts as long as what was recorded
-- since its first frame: not longer, and shorter by at most 1/100 of a second for each frame.
pub encode_gif_lasts :
    (now : ℕ) (f : AnimatedFrame) (rest : List AnimatedFrame) (gif : List (ℕ × ℤ))
    → InOrder now (f ∷ rest)
    → now < f.ts + 2 ^ 31 * hundredth
    → encode_gif now (f ∷ rest) ≡ ok gif
    → (total gif * hundredth + f.ts ≤ now)
      × (now ≤ f.ts + (total gif + length (f ∷ rest)) * hundredth)
unfolding encode_gif
encode_gif_lasts now f rest gif h k e =
    let same : delays now (f ∷ rest) ≡ gif = ground arith in
    subst
      (λ g.
        (total g * hundredth + f.ts ≤ now)
        × (now ≤ f.ts + (total g + length (f ∷ rest)) * hundredth))
      same (total-delays now (f ∷ rest) h k)
