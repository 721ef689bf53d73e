-- ===== src/Drac/Video/Trimming.antt =====
-- What `trim` keeps of the animation.
use dracd.Common.{
  subst, ℕ, suc, ◌+◌, ◌-◌, ◌≤◌, ◌<◌, ◌≡◌, ◌≢◌, refl, ap, List, [], ◌∷◌, ◌++◌, inl, inr, length, map,
  ltb, if◌then◌else◌, arith, Bool-cases,
}
use dracd.Drac.Sessions.{AnimatedFrame}
use dracd.Drac.Video.{trim, five_seconds}

-- The list is one frame, or its first frame is not older than five seconds.
abbrev pub Recent : ℕ → List AnimatedFrame → Type 0
Recent now [] = ⊥
Recent now (f ∷ []) = Unit
Recent now (f ∷ g ∷ rest) = now - f.ts ≤ five_seconds

-- Each of some frames was older than five seconds when it went.
abbrev pub Gone : (ℕ → ℕ) → ℕ → List AnimatedFrame → Type 0
Gone clock k [] = Unit
Gone clock k (f ∷ gone) = (five_seconds < clock k - f.ts) × Gone clock (suc k) gone

-- What `trim` promises of its result.
record Trimmed (clock : ℕ → ℕ) (k : ℕ) (l : List AnimatedFrame) (r : List ℕ × List AnimatedFrame)
    : Type 0 where
  gone : List AnimatedFrame
  split : l ≡ gone ++ r.1
  freed : r.0 ≡ map (λ f. f.qf) gone
  old : Gone clock k gone
  recent : Recent (clock (k + length gone)) r.1

trim-Trimmed :
    (clock : ℕ → ℕ) (k : ℕ) (f : AnimatedFrame) (l : List AnimatedFrame)
    → Trimmed clock k (f ∷ l) (trim clock k (f ∷ l))
unfolding trim
trim-Trimmed clock k f [] = record { gone = []; split = refl; freed = refl; old = tt; recent = tt }
trim-Trimmed clock k f (g ∷ rest) =
    go (trim clock (suc k) (g ∷ rest)) (trim-Trimmed clock (suc k) g rest)
  where
    go :
        (r : List ℕ × List AnimatedFrame)
        → Trimmed clock (suc k) (g ∷ rest) r
        → Trimmed clock k
            (f ∷ g ∷ rest)
            (if ltb five_seconds (clock k - f.ts) then (f.qf ∷ r.0, r.1) else ([], f ∷ g ∷ rest))
    go r t = elim (Bool-cases (ltb five_seconds (clock k - f.ts))) [
      | inl old ↦
          let e : suc k + length t.gone ≡ k + length (f ∷ t.gone) = omega arith in
          rw old (record {
            gone = f ∷ t.gone;
            split = ap (◌∷◌ f) t.split;
            freed = ap (◌∷◌ f.qf) t.freed;
            old = (ground arith, t.old);
            recent = subst (λ n. Recent (clock n) r.1) e t.recent;
          })
      | inr young ↦
          let e : k ≡ k + 0 = omega arith in
          rw young (record {
            gone = [];
            split = refl;
            freed = refl;
            old = tt;
            recent = subst (λ n. clock n - f.ts ≤ five_seconds) e (ground arith);
          })
    ]

-- Of a list that is not empty, `trim` drops and frees a front, each frame of it once and when it was
-- older than five seconds; it keeps the rest, which is one frame or begins with one that is not older
-- than five seconds.
trim_splits :
    (clock : ℕ → ℕ) (k : ℕ) (l : List AnimatedFrame)
    → l ≢ []
    → (gone : List AnimatedFrame) × (l ≡ gone ++ (trim clock k l).1)
      × ((trim clock k l).0 ≡ map (λ f. f.qf) gone)
      × Gone clock k gone
      × Recent (clock (k + length gone)) (trim clock k l).1
trim_splits clock k [] ne = absurd (ne refl)
trim_splits clock k (f ∷ l) ne =
    let t = trim-Trimmed clock k f l in (t.gone, t.split, t.freed, t.old, t.recent)
