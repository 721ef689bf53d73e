-- ===== src/Common/Atoi.antt =====
-- strconv.Atoi on a 64-bit machine: the number, or a syntax or range error with the value that Go
-- returns beside it. The digits are read into a uint64.
use dracd.Common.Tests.{leb, ltb, ◌==◌, if◌then◌else◌}
use dracd.Common.Int.{ℤ, pos, negsuc}
use Prim.Native.Nat.{ℕ, ◌+◌, ◌-◌, ◌*◌, ◌^◌}
use mathlib.Core.Bool.{Bool, true, false, ◌&&◌}
use mathlib.Core.List.{List, [], ◌∷◌}

pub data Parsed : Type 0 where
  number : ℤ → Parsed
  syntax : Parsed
  range : ℤ → Parsed

-- What the digits come to.
pub data Digits : Type 0 where
  value : ℕ → Digits
  bad : Digits
  too_big : Digits

unfoldable pub read_digits : ℕ → List ℕ → Digits
read_digits n [] = value n
read_digits n (c ∷ cs) =
    let n' = n * 10 + (c - b'0') in
    let more = read_digits n' cs in
    if leb b'0' c && leb c b'9' then if ltb n' (2 ^ 64) then more else too_big else bad

abbrev negative : ℕ → ℤ
negative n = if n == 0 then pos 0 else negsuc (n - 1)

abbrev signed : Bool → Digits → Parsed
signed minus bad = syntax
signed true too_big = range (negsuc (2 ^ 63 - 1))
signed false too_big = range (pos (2 ^ 63 - 1))
signed true (value n) = if leb n (2 ^ 63) then number (negative n) else range (negsuc (2 ^ 63 - 1))
signed false (value n) = if ltb n (2 ^ 63) then number (pos n) else range (pos (2 ^ 63 - 1))

abbrev unsigned : Bool → List ℕ → Parsed
unsigned minus [] = syntax
unsigned minus (c ∷ cs) = signed minus (read_digits 0 (c ∷ cs))

unfoldable pub atoi : List ℕ → Parsed
atoi [] = syntax
atoi (c ∷ cs) =
    if c == b'-'
    then unsigned true cs
    else if c == b'+'
    then unsigned false cs
    else unsigned false (c ∷ cs)

-- `n, _ := strconv.Atoi(s)`.
abbrev pub value_of : Parsed → ℤ
value_of (number n) = n
value_of syntax = pos 0
value_of (range n) = n
