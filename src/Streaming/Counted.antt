-- ===== src/Streaming/Counted.antt =====
-- Frames whose counts agree with a number of holders for each.
use dracd.Common.{
  one, count, Bool, subst, ◌∙◌, sym, ℕ, zero, suc, ◌+◌, ◌<◌, ◌≡◌, refl, List, [], ◌∷◌, ◌++◌, length,
  modify, arith, some, get_elem?,
}
use dracd.Frame.{Frame, acquire, release}
use dracd.Frame.Counting.{Live, acquire-Live, release-Live}
use dracd.Streaming.{release_all}

-- Each frame, made of an image, is as it should be with `holders` references; no other has any.
abbrev pub Counted : List Frame → List (List ℕ) → (ℕ → ℕ) → Type 0
Counted [] [] holders = (f : ℕ) → holders f ≡ 0
Counted (x ∷ xs) (image ∷ images) holders =
    Live image x.backing (holders 0) x × Counted xs images (λ f. holders (suc f))
Counted _ _ holders = ⊥

Live-eq :
    (image : List ℕ) (x : Frame) (m n : ℕ)
    → m ≡ n
    → Live image x.backing m x
    → Live image x.backing n x
Live-eq image x m n e h = rw (← e) h

pub Counted-same :
    (xs : List Frame) (images : List (List ℕ)) (a b : ℕ → ℕ)
    → ((g : ℕ) → a g ≡ b g)
    → Counted xs images a
    → Counted xs images b
Counted-same [] [] a b e h = λ f. sym (e f) ∙ h f
Counted-same [] (i ∷ is) a b e h = h
Counted-same (x ∷ xs) [] a b e h = h
Counted-same (x ∷ xs) (i ∷ is) a b e h = (
  Live-eq i x (a 0) (b 0) (e 0) h.0,
  Counted-same xs is (λ f. a (suc f)) (λ f. b (suc f)) (λ g. e (suc g)) h.1,
)

Live-own :
    (image : List ℕ) (b : Bool) (n : ℕ) (x : Frame) → Live image b n x → Live image x.backing n x
Live-own image b n x h = subst (λ (c : Bool). Live image c n x) (sym h.same) h

acquired-Live :
    (image : List ℕ) (x : Frame) (a b : ℕ)
    → 0 < a
    → b ≡ suc a
    → Live image x.backing a x
    → Live image (acquire x).backing b (acquire x)
acquired-Live image x zero b held e h = absurd (omega arith)
acquired-Live image x (suc a) b held e h =
    Live-own image x.backing b (acquire x)
      (subst (λ (n : ℕ). Live image x.backing n (acquire x)) (sym e) (acquire-Live a x.backing x h))

released-Live :
    (image : List ℕ) (x : Frame) (a b : ℕ)
    → a ≡ suc b
    → Live image x.backing a x
    → Live image (release x).backing b (release x)
released-Live image x a b e h =
    Live-own image x.backing b (release x)
      (release-Live b x.backing x (Live-eq image x a (suc b) e h))

-- A holder acquires another reference to the frame `f`.
pub Counted-acquire :
    (f : ℕ) (xs : List Frame) (images : List (List ℕ)) (a b : ℕ → ℕ)
    → 0 < a f
    → ((g : ℕ) → b g ≡ a g + one f g)
    → Counted xs images a
    → Counted (modify xs f acquire) images b
Counted-acquire f [] [] a b held e h = absurd (omega (arith, h f))
Counted-acquire f [] (i ∷ is) a b held e h = h
Counted-acquire zero (x ∷ xs) [] a b held e h = h
Counted-acquire (suc f) (x ∷ xs) [] a b held e h = h
Counted-acquire zero (x ∷ xs) (i ∷ is) a b held e h = (
  acquired-Live i x (a 0) (b 0) held (ground (arith, e 0)) h.0,
  Counted-same xs is (λ g. a (suc g)) (λ g. b (suc g)) (λ g. ground (arith, e (suc g))) h.1,
)
Counted-acquire (suc f) (x ∷ xs) (i ∷ is) a b held e h = (
  Live-eq i x (a 0) (b 0) (ground (arith, e 0)) h.0,
  Counted-acquire f xs is (λ g. a (suc g)) (λ g. b (suc g)) held (λ g. ground (arith, e (suc g)))
      h.1,
)

-- A holder of the frame `f` releases it.
pub Counted-release :
    (f : ℕ) (xs : List Frame) (images : List (List ℕ)) (a b : ℕ → ℕ)
    → ((g : ℕ) → a g ≡ b g + one f g)
    → Counted xs images a
    → Counted (modify xs f release) images b
Counted-release f [] [] a b e h = absurd (ground (arith, h f, e f))
Counted-release f [] (i ∷ is) a b e h = h
Counted-release zero (x ∷ xs) [] a b e h = h
Counted-release (suc f) (x ∷ xs) [] a b e h = h
Counted-release zero (x ∷ xs) (i ∷ is) a b e h = (
  released-Live i x (a 0) (b 0) (ground (arith, e 0)) h.0,
  Counted-same xs is (λ g. a (suc g)) (λ g. b (suc g)) (λ g. ground (arith, e (suc g))) h.1,
)
Counted-release (suc f) (x ∷ xs) (i ∷ is) a b e h = (
  Live-eq i x (a 0) (b 0) (ground (arith, e 0)) h.0,
  Counted-release f xs is (λ g. a (suc g)) (λ g. b (suc g)) (λ g. ground (arith, e (suc g))) h.1,
)

pub Counted-release_all :
    (fs : List ℕ) (xs : List Frame) (images : List (List ℕ)) (a b : ℕ → ℕ)
    → ((g : ℕ) → a g ≡ b g + count g fs)
    → Counted xs images a
    → Counted (release_all fs xs) images b
unfolding release_all
Counted-release_all [] xs images a b e h = Counted-same xs images a b (λ g. omega (arith, e g)) h
Counted-release_all (f ∷ fs) xs images a b e h =
    Counted-release_all fs (modify xs f release) images (λ g. b g + count g fs) b (λ g. refl)
      (Counted-release f xs images a (λ g. b g + count g fs) (λ g. omega (arith, e g)) h)

-- A new frame, which its maker holds.
pub Counted-add :
    (x : Frame) (image : List ℕ) (xs : List Frame) (images : List (List ℕ)) (a b : ℕ → ℕ)
    → Live image x.backing 1 x
    → ((g : ℕ) → b g ≡ a g + one (length xs) g)
    → Counted xs images a
    → Counted (xs ++ x ∷ []) (images ++ image ∷ []) b
Counted-add x image [] [] a b live e h = (
  Live-eq image x 1 (b 0) (ground (arith, e 0, h 0)) live,
  λ g. ground (arith, e (suc g), h (suc g)),
)
Counted-add x image [] (i ∷ is) a b live e h = absurd h
Counted-add x image (y ∷ xs) [] a b live e h = absurd h
Counted-add x image (y ∷ xs) (i ∷ is) a b live e h = (
  Live-eq i y (a 0) (b 0) (ground (arith, e 0)) h.0,
  Counted-add x image xs is (λ g. a (suc g)) (λ g. b (suc g)) live (λ g. ground (arith, e (suc g)))
      h.1,
)

-- A frame that is held is there, with its image.
pub Counted-get_elem? :
    (f : ℕ) (xs : List Frame) (images : List (List ℕ)) (a : ℕ → ℕ)
    → Counted xs images a
    → 0 < a f
    → (x : Frame) × (image : List ℕ) × (get_elem? xs f ≡ some x)
      × (get_elem? images f ≡ some image)
      × Live image x.backing (a f) x
Counted-get_elem? f [] [] a h held = absurd (omega (arith, h f))
Counted-get_elem? f [] (i ∷ is) a h held = absurd h
Counted-get_elem? zero (x ∷ xs) [] a h held = absurd h
Counted-get_elem? (suc f) (x ∷ xs) [] a h held = absurd h
Counted-get_elem? zero (x ∷ xs) (i ∷ is) a h held = (x, i, refl, refl, h.0)
Counted-get_elem? (suc f) (x ∷ xs) (i ∷ is) a h held =
    Counted-get_elem? f xs is (λ g. a (suc g)) h.1 held

-- Any frame has as many references as holders.
pub Counted-Live :
    (f : ℕ) (xs : List Frame) (images : List (List ℕ)) (a : ℕ → ℕ) (x : Frame)
    → Counted xs images a
    → get_elem? xs f ≡ some x
    → (image : List ℕ) × (get_elem? images f ≡ some image) × Live image x.backing (a f) x
Counted-Live f [] images a x h e = absurd (cc)
Counted-Live f (y ∷ xs) [] a x h e = absurd h
Counted-Live zero (y ∷ xs) (i ∷ is) a x h e =
    (i, refl, subst (λ (z : Frame). Live i z.backing (a 0) z) (ground arith) h.0)
Counted-Live (suc f) (y ∷ xs) (i ∷ is) a x h e = Counted-Live f xs is (λ g. a (suc g)) x h.1 e
