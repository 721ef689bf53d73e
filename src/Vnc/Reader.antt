-- ===== src/Vnc/Reader.antt =====
-- A bufio.Reader over what the client sends until the connection fails. Reads whose error the code
-- ignores keep the old value, and take what is left if it is too short, as io.ReadFull does.
pub mod Length
use dracd.Common.{ℕ, Option, none, some, List, [], ◌∷◌, drop}
use dracd.Common.Bytes.{of_be16, of_be32}

abbrev pub Input : Type 0
Input = List ℕ

abbrev pub Read : Type 0 → Type 0
Read A = Input → A × Input

abbrev pub pure : {A : Type 0} → A → Read A
pure a input = (a, input)

infixl 5 ◌>>=◌ ◌>>◌
abbrev pub ◌>>=◌ : {A B : Type 0} → Read A → (A → Read B) → Read B
◌>>=◌ m f input = let (a, rest) = m input in f a rest

abbrev pub ◌>>◌ : {B : Type 0} → Read (Unit {0}) → Read B → Read B
m >> k = m >>= λ _. k

-- br.ReadByte, with its error.
abbrev pub read_byte : Input → Option (ℕ × Input)
read_byte [] = none
read_byte (b ∷ rest) = some (b, rest)

-- br.ReadByte, with the result ignored.
abbrev pub skip_byte : Read (Unit {0})
skip_byte [] = (tt, [])
skip_byte (b ∷ rest) = (tt, rest)

-- binary.Read into n bytes of padding.
abbrev pub skip : ℕ → Read (Unit {0})
skip n input = (tt, drop n input)

-- binary.Read into a variable that holds `old`.
abbrev pub read_u8 : ℕ → Read ℕ
read_u8 old [] = (old, [])
read_u8 old (a ∷ rest) = (a, rest)

abbrev pub read_u16 : ℕ → Read ℕ
read_u16 old [] = (old, [])
read_u16 old (a ∷ []) = (old, [])
read_u16 old (a ∷ b ∷ rest) = (of_be16 a b, rest)

abbrev pub read_u32 : ℕ → Read ℕ
read_u32 old [] = (old, [])
read_u32 old (a ∷ []) = (old, [])
read_u32 old (a ∷ b ∷ []) = (old, [])
read_u32 old (a ∷ b ∷ c ∷ []) = (old, [])
read_u32 old (a ∷ b ∷ c ∷ d ∷ rest) = (of_be32 a b c d, rest)
