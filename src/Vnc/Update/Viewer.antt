-- ===== src/Vnc/Update/Viewer.antt =====
-- A viewer of the RFB protocol, the other end of send_vnc_frame, written from the protocol's
-- definition: DesktopSize resizes the screen, a Tight rectangle with control byte 0xa0 is a PNG behind
-- a compact length of seven bits, seven bits and eight bits. A rectangle must fill the screen.
pub mod Shows
use dracd.Common.{
  ℕ, ◌+◌, ◌*◌, ◌%◌, ◌≡◌, ◌&&◌, Option, none, some, List, [], ◌∷◌, ◌++◌, ltb, leb, ◌==◌,
  if◌then◌else◌, length, take, drop,
}
use dracd.Common.Bytes.{of_be16, of_be32}
use dracd.Vnc.Update.{desktop_size, tight}

infixl 5 ◌>>=◌
abbrev ◌>>=◌ : {A B : Type 0} → Option A → (A → Option B) → Option B
none >>= f = none
some a >>= f = f a

abbrev byte : List ℕ → Option (ℕ × List ℕ)
byte [] = none
byte (a ∷ rest) = some (a, rest)

abbrev u16 : List ℕ → Option (ℕ × List ℕ)
u16 input = do (a, r) ← byte input; (b, r) ← byte r; some (of_be16 a b, r)

abbrev u32 : List ℕ → Option (ℕ × List ℕ)
u32 input = do
  (a, r) ← byte input
  (b, r) ← byte r
  (c, r) ← byte r
  (d, r) ← byte r
  some (of_be32 a b c d, r)

-- The compact length of the Tight encoding.
unfoldable pub read_compact : List ℕ → Option (ℕ × List ℕ)
read_compact input = do
  (a, r) ← byte input
  if ltb a 128 then some (a, r) else do
    (b, r) ← byte r
    if ltb b 128
        then some (a % 128 + b * 128, r)
        else do (c, r) ← byte r; some (a % 128 + b % 128 * 128 + c * 16384, r)

pub record Rect : Type 0 where
  pub width : ℕ
  pub height : ℕ
  pub encoding : ℕ

-- An update with one rectangle at the origin, up to the rectangle's contents.
read_header : List ℕ → Option (Rect × List ℕ)
read_header input = do
  (kind, r) ← byte input
  (_, r) ← byte r
  (count, r) ← u16 r
  (x, r) ← u16 r
  (y, r) ← u16 r
  (width, r) ← u16 r
  (height, r) ← u16 r
  (encoding, r) ← u32 r
  if (kind == 0 && count == 1) && (x == 0 && y == 0)
      then some (record { width = width; height = height; encoding = encoding }, r)
      else none

-- What the viewer shows, and the images that it has shown so far.
pub record Screen : Type 0 where
  pub width : ℕ
  pub height : ℕ
  pub images : List (List ℕ)

read_image : Screen → List ℕ → Option (Screen × List ℕ)
read_image s input = do
  (control, r) ← byte input
  (n, r) ← read_compact r
  if control == 0xa0 && leb n (length r)
      then some (record s { images = s.images ++ take n r ∷ [] }, drop n r)
      else none

read_contents : Screen → Rect → List ℕ → Option (Screen × List ℕ)
unfolding read_image
read_contents s h input =
    if h.encoding == desktop_size
    then some (record s { width = h.width; height = h.height }, input)
    else if h.encoding == tight && (h.width == s.width && h.height == s.height)
    then read_image s input
    else none

pub view_update : Screen → List ℕ → Option (Screen × List ℕ)
view_update s input = do (h, r) ← read_header input; read_contents s h r

-- The viewer reads the whole input, update by update.
pub data Views : Screen → List ℕ → Screen → Type 0 where
  done : {s : Screen} → Views s [] s
  next :
      {s s' t : Screen} {input rest : List ℕ}
      → view_update s input ≡ some (s', rest)
      → Views s' rest t
      → Views s input t
