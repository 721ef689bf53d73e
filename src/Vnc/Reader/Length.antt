-- ===== src/Vnc/Reader/Length.antt =====
-- No read makes the input longer.
use dracd.Common.{ℕ, ◌≤◌, [], ◌∷◌, arith, length}
use dracd.Vnc.Reader.{Input, Read, pure, ◌>>=◌, skip_byte, read_u8, read_u16, read_u32}

pub record Shrinks {A : Type 0} (m : Read A) : Type 0 where
  pub le : (input : Input) → length (m input).1 ≤ length input

pub pure-Shrinks : {A : Type 0} (a : A) → Shrinks (pure a)
pure-Shrinks a = record { le = λ input. omega arith }

pub >>=-Shrinks :
    {A B : Type 0} (m : Read A) (f : A → Read B)
    → Shrinks m
    → ((a : A) → Shrinks (f a))
    → Shrinks (m >>= f)
>>=-Shrinks m f hm hf = record {
  le = λ input. omega (arith, hm.le input, (hf (m input).0).le (m input).1);
}

skip_byte-le : (input : Input) → length (skip_byte input).1 ≤ length input
skip_byte-le [] = omega arith
skip_byte-le (b ∷ rest) = omega arith

read_u8-le : (old : ℕ) (input : Input) → length (read_u8 old input).1 ≤ length input
read_u8-le old [] = omega arith
read_u8-le old (a ∷ rest) = omega arith

read_u16-le : (old : ℕ) (input : Input) → length (read_u16 old input).1 ≤ length input
read_u16-le old [] = omega arith
read_u16-le old (a ∷ []) = omega arith
read_u16-le old (a ∷ b ∷ rest) = omega arith

pub read_u32-le : (old : ℕ) (input : Input) → length (read_u32 old input).1 ≤ length input
read_u32-le old [] = omega arith
read_u32-le old (a ∷ []) = omega arith
read_u32-le old (a ∷ b ∷ []) = omega arith
read_u32-le old (a ∷ b ∷ c ∷ []) = omega arith
read_u32-le old (a ∷ b ∷ c ∷ d ∷ rest) = omega arith

pub skip_byte-Shrinks : Shrinks skip_byte
skip_byte-Shrinks = record { le = skip_byte-le }

pub read_u8-Shrinks : (old : ℕ) → Shrinks (read_u8 old)
read_u8-Shrinks old = record { le = read_u8-le old }

pub read_u16-Shrinks : (old : ℕ) → Shrinks (read_u16 old)
read_u16-Shrinks old = record { le = read_u16-le old }

pub read_u32-Shrinks : (old : ℕ) → Shrinks (read_u32 old)
read_u32-Shrinks old = record { le = read_u32-le old }

pub ruleset rules = (
  >>=-Shrinks, pure-Shrinks, skip_byte-Shrinks, read_u8-Shrinks, read_u16-Shrinks, read_u32-Shrinks,
)
