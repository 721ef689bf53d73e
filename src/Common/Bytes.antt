-- ===== src/Common/Bytes.antt =====
-- Big-endian integers on the wire, as `encoding/binary` writes and reads them. A byte is a number
-- below 256, and a byte slice a list of them.
use Prim.Native.Nat.{ℕ, ◌+◌, ◌*◌, ◌/◌, ◌%◌, ◌<◌, ◌^◌}
use mathlib.Core.Path.{◌≡◌}
use mathlib.Core.List.{List, [], ◌∷◌}
use native.Mathlib.Omega.{arith}

-- The bytes that binary.Write produces for a uint16 and a uint32.
abbrev pub be16 : ℕ → List ℕ
be16 n = (n / 256 % 256) ∷ (n % 256) ∷ []

abbrev pub be32 : ℕ → List ℕ
be32 n = (n / 16777216 % 256) ∷ (n / 65536 % 256) ∷ (n / 256 % 256) ∷ (n % 256) ∷ []

-- The integers that binary.Read makes of two and of four bytes.
abbrev pub of_be16 : ℕ → ℕ → ℕ
of_be16 a b = a * 256 + b

abbrev pub of_be32 : ℕ → ℕ → ℕ → ℕ → ℕ
of_be32 a b c d = a * 16777216 + b * 65536 + c * 256 + d

pub of_be16-be16 : (n : ℕ) → n < 2 ^ 16 → of_be16 (n / 256 % 256) (n % 256) ≡ n
of_be16-be16 n h = omega arith

pub of_be32-be32 :
    (n : ℕ)
    → n < 2 ^ 32
    → of_be32 (n / 16777216 % 256) (n / 65536 % 256) (n / 256 % 256) (n % 256) ≡ n
of_be32-be32 n h = omega arith
