-- ===== src/Frame/Counting.antt =====
-- Balanced use of a frame: a frame that starts with one reference and sees acquires and releases.
use dracd.Common.{
  none, ℕ, zero, suc, ◌≡◌, refl, List, [], ◌∷◌, Bool, true, false, ℤ, pos, negsuc, succ_ℤ, pred_ℤ,
  arith, ok, take, some, Option,
}
use dracd.Frame.{
  slice, with_image, new_frame, new_frame_from_bytes, Frame, framed, acquire, release,
}

pub data Op : Type 0 where
  acquires : Op
  releases : Op

pub apply : Frame → List Op → Frame
apply f [] = f
apply f (acquires ∷ ops) = apply (acquire f) ops
apply f (releases ∷ ops) = apply (release f) ops

-- From `n` references on, each acquire and release is by a holder of a reference, and `m` are left.
pub data Balanced : ℕ → List Op → ℕ → Type 0 where
  none_left : {n : ℕ} → Balanced n [] n
  acquired :
      {n m : ℕ} {ops : List Op} → Balanced (suc (suc n)) ops m → Balanced (suc n) (acquires ∷ ops) m
  given_back : {n m : ℕ} {ops : List Op} → Balanced n ops m → Balanced (suc n) (releases ∷ ops) m

-- The image and the calls of cFree with some references left: with none left, memory of the C library
-- is freed.
abbrev pub left : ℕ → Bool → List ℕ → List ℕ × ℕ
left zero true image = ([], 1)
left zero false image = (image, 0)
left (suc n) backing image = (image, 0)

pub record Live (image : List ℕ) (backing : Bool) (n : ℕ) (f : Frame) : Type 0 where
  pub counted : f.refcount ≡ pos n
  pub same : f.backing ≡ backing
  pub contents : (f.image, f.frees) ≡ left n backing image

module _ {image : List ℕ} where
  pub acquire-Live :
      (n : ℕ) (backing : Bool) (f : Frame)
      → Live image backing (suc n) f
      → Live image backing (suc (suc n)) (acquire f)
  unfolding acquire
  acquire-Live n backing f h = record {
    counted = ground (arith, h.counted);
    same = h.same;
    contents = h.contents;
  }

  pub release-Live :
      (n : ℕ) (backing : Bool) (f : Frame)
      → Live image backing (suc n) f
      → Live image backing n (release f)
  unfolding release
  release-Live zero true f h = ground (arith, h.counted, h.same, h.contents)
  release-Live zero false f h = ground (arith, h.counted, h.same, h.contents)
  release-Live (suc n) true f h = ground (arith, h.counted, h.same, h.contents)
  release-Live (suc n) false f h = ground (arith, h.counted, h.same, h.contents)

  apply-Live :
      {n m : ℕ} {ops : List Op} (backing : Bool) (f : Frame)
      → Balanced n ops m
      → Live image backing n f
      → Live image backing m (apply f ops)
  unfolding apply
  apply-Live backing f none_left h = h
  apply-Live backing f (acquired {n} b) h =
      apply-Live backing (acquire f) b (acquire-Live n backing f h)
  apply-Live backing f (given_back {n} b) h =
      apply-Live backing (release f) b (release-Live n backing f h)

-- A frame made of a buffer of the C library, used in balance: while references are left its image is
-- whole and its memory is not freed, and the release of the last one frees the memory, once.
new_frame-apply :
    (buffer : List ℕ) (size width height : ℕ) (f : Frame) {m : ℕ} {ops : List Op}
    → new_frame (some buffer) (pos size) width height ≡ ok f
    → Balanced 1 ops m
    → ((apply f ops).refcount ≡ pos m)
      × (((apply f ops).image, (apply f ops).frees) ≡ left m true (take size buffer))
unfolding new_frame slice with_image framed
new_frame-apply buffer size width height f e b =
    let live =
      apply-Live {image = take size buffer} true f b
        (record { counted = ground arith; same = ground arith; contents = ground arith }) in
    (live.counted, live.contents)

-- A frame made of bytes of the program is never freed, however it is used in balance.
new_frame_from_bytes-apply :
    (image : List ℕ) (width height : ℕ) {m : ℕ} {ops : List Op}
    → Balanced 1 ops m
    → let f : Frame = apply (new_frame_from_bytes image width height) ops in
      (f.refcount ≡ pos m) × (f.image ≡ image) × (f.frees ≡ 0)
unfolding new_frame_from_bytes framed
new_frame_from_bytes-apply image width height {m = zero} b =
    let live =
      apply-Live {image = image} false _ b
        (record { counted = refl; same = refl; contents = refl }) in
    (live.counted, ground (arith, live.contents), ground (arith, live.contents))
new_frame_from_bytes-apply image width height {m = suc m} b =
    let live =
      apply-Live {image = image} false _ b
        (record { counted = refl; same = refl; contents = refl }) in
    (live.counted, ground (arith, live.contents), ground (arith, live.contents))

pub refcount-acquire : (f : Frame) → (acquire f).refcount ≡ succ_ℤ f.refcount
unfolding acquire
refcount-acquire f = refl

pub refcount-release : (f : Frame) → (release f).refcount ≡ pred_ℤ f.refcount
unfolding release
refcount-release f = ground arith

-- A new frame has one reference.
pub refcount-new_frame :
    (buffer : Option (List ℕ)) (size : ℤ) (width height : ℕ) (f : Frame)
    → new_frame buffer size width height ≡ ok f
    → f.refcount ≡ pos 1
unfolding new_frame slice with_image framed
refcount-new_frame none size width height f e = absurd (cc)
refcount-new_frame (some buffer) (negsuc n) width height f e = absurd (cc)
refcount-new_frame (some buffer) (pos n) width height f e = ground arith

pub refcount-new_frame_from_bytes :
    (image : List ℕ) (width height : ℕ) → (new_frame_from_bytes image width height).refcount ≡ pos 1
unfolding new_frame_from_bytes framed
refcount-new_frame_from_bytes image width height = refl

-- A new frame is as it should be with one reference.
pub new_frame-Live :
    (buffer : Option (List ℕ)) (size : ℤ) (width height : ℕ) (f : Frame)
    → new_frame buffer size width height ≡ ok f
    → Live f.image f.backing 1 f
unfolding new_frame slice with_image framed
new_frame-Live none size width height f e = absurd (cc)
new_frame-Live (some buffer) (negsuc n) width height f e = absurd (cc)
new_frame-Live (some buffer) (pos n) width height f e = ground arith

pub new_frame_from_bytes-Live :
    (image : List ℕ) (width height : ℕ)
    → Live image
        (new_frame_from_bytes image width height).backing
        1
        (new_frame_from_bytes image width height)
unfolding new_frame_from_bytes framed
new_frame_from_bytes-Live image width height = ground arith
