-- ===== src/Vnc/PixelFmt.antt =====
-- PixelFmt of vnc.go: what the server announces and what a SetPixelFormat message reads into it.
use dracd.Common.{ℕ, ◌≡◌, List, [], ◌∷◌, ◌++◌, ◌^◌, ◌<◌}
use dracd.Common.Bytes.{be16, of_be16-be16}
use dracd.Vnc.Reader.{Read, pure, ◌>>=◌, ◌>>◌, skip_byte, read_u8, read_u16}

pub record PixelFmt : Type 0 where
  pub bpp : ℕ
  pub depth : ℕ
  pub big_endian : ℕ
  pub true_color : ℕ
  pub red_max : ℕ
  pub green_max : ℕ
  pub blue_max : ℕ
  pub red_shift : ℕ
  pub green_shift : ℕ
  pub blue_shift : ℕ

-- The format of a new client.
abbrev pub initial : PixelFmt
initial = record {
  bpp = 32;
  depth = 24;
  big_endian = 0;
  true_color = 1;
  red_max = 255;
  green_max = 255;
  blue_max = 255;
  red_shift = 0;
  green_shift = 8;
  blue_shift = 16;
}

-- The fields as ServerInit sends them, with the padding.
unfoldable pub write : PixelFmt → List ℕ
write p =
    p.bpp
    ∷ p.depth
    ∷ p.big_endian
    ∷ p.true_color
    ∷ (be16 p.red_max
        ++ (be16 p.green_max
            ++ (be16 p.blue_max ++ (p.red_shift ∷ p.green_shift ∷ p.blue_shift ∷ 0 ∷ 0 ∷ 0 ∷ []))))

-- The fields as SetPixelFormat reads them, one by one, over the old format.
unfoldable pub read : PixelFmt → Read PixelFmt
read p = do
  bpp ← read_u8 p.bpp
  depth ← read_u8 p.depth
  big_endian ← read_u8 p.big_endian
  true_color ← read_u8 p.true_color
  red_max ← read_u16 p.red_max
  green_max ← read_u16 p.green_max
  blue_max ← read_u16 p.blue_max
  red_shift ← read_u8 p.red_shift
  green_shift ← read_u8 p.green_shift
  blue_shift ← read_u8 p.blue_shift
  skip_byte
  skip_byte
  skip_byte
  pure (record {
    bpp = bpp;
    depth = depth;
    big_endian = big_endian;
    true_color = true_color;
    red_max = red_max;
    green_max = green_max;
    blue_max = blue_max;
    red_shift = red_shift;
    green_shift = green_shift;
    blue_shift = blue_shift;
  })

pub record InRange (p : PixelFmt) : Type 0 where
  pub red : p.red_max < 2 ^ 16
  pub green : p.green_max < 2 ^ 16
  pub blue : p.blue_max < 2 ^ 16

-- What SetPixelFormat reads is what the server's own announcement writes, whatever was there before.
pub read-write :
    (old p : PixelFmt) (rest : List ℕ) → InRange p → read old (write p ++ rest) ≡ (p, rest)
unfolding read write
read-write old p rest h =
    rw (
      of_be16-be16 p.red_max h.red,
      of_be16-be16 p.green_max h.green,
      of_be16-be16 p.blue_max h.blue,
    )
