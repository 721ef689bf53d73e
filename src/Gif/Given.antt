-- ===== src/Gif/Given.antt =====
-- The quantized frames that WriteGif is given.
use dracd.Common.{ℕ, ◌≡◌, refl, ap, List, [], ◌∷◌, map, ℤ, Outcome, ok, panics}
use dracd.Drac.Sessions.{AnimatedFrame}
use dracd.Gif.{delays, encode_gif}

abbrev pub given : Outcome (List (ℕ × ℤ)) → List ℕ
given (ok frames) = map (λ q. q.0) frames
given (panics p) = []

map-delays : (now : ℕ) (l : List AnimatedFrame) → map (λ q. q.0) (delays now l) ≡ map (λ f. f.qf) l
unfolding delays
map-delays now [] = refl
map-delays now (f ∷ rest) = ap (◌∷◌ f.qf) (map-delays now rest)

pub given-encode_gif :
    (now : ℕ) (l : List AnimatedFrame) → given (encode_gif now l) ≡ map (λ f. f.qf) l
unfolding encode_gif
given-encode_gif now [] = refl
given-encode_gif now (f ∷ rest) = map-delays now (f ∷ rest)
