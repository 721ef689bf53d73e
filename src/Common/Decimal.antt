-- ===== src/Common/Decimal.antt =====
-- fmt.Sprintf("%d") of an int, and that strconv.Atoi reads it back.
use dracd.Common.Tests.{ltb, if◌then◌else◌, Bool-cases}
use dracd.Common.Int.{ℤ, pos, negsuc}
use dracd.Common.Atoi.{number, value, read_digits, atoi}
use Prim.Native.Nat.{ℕ, zero, suc, ◌+◌, ◌-◌, ◌*◌, ◌/◌, ◌%◌, ◌^◌, ◌<◌, ◌≤◌}
use mathlib.Core.Path.{◌≡◌, refl, sym, ap, ◌∙◌, subst}
use mathlib.Core.List.{List, [], ◌∷◌, ◌++◌}
use mathlib.Core.Logic.{inl, inr}
use native.Mathlib.Omega.{arith}

-- The digits of a number; one round takes the last of them.
unfoldable pub digits : ℕ → ℕ → List ℕ
digits zero n = (b'0' + n) ∷ []
digits (suc rounds) n =
    let front = digits rounds (n / 10) in
    if ltb n 10 then (b'0' + n) ∷ [] else front ++ (b'0' + n % 10) ∷ []

abbrev pub decimal : ℕ → List ℕ
decimal n = digits n n

unfoldable pub format : ℤ → List ℕ
unfolding digits
format (pos n) = decimal n
format (negsuc n) = b'-' ∷ decimal (suc n)

last_digit :
    (m d : ℕ) → d < 10 → m * 10 + d < 2 ^ 64 → read_digits m ((b'0' + d) ∷ []) ≡ value (m * 10 + d)
unfolding read_digits
last_digit m d digit small = ground arith

-- Where a number is read, its first digit is one, and is not too big.
reads_first :
    (m k c : ℕ) (xs ys : List ℕ)
    → read_digits m (c ∷ xs) ≡ value k
    → (read_digits (m * 10 + (c - b'0')) xs ≡ value k)
      × (read_digits m (c ∷ ys) ≡ read_digits (m * 10 + (c - b'0')) ys)
unfolding read_digits
reads_first m k c xs ys e = ground arith

read_digits-nil : (m k : ℕ) → read_digits m [] ≡ value k → m ≡ k
unfolding read_digits
read_digits-nil m k e = ground arith

read_digits-append :
    (m k d : ℕ) (xs : List ℕ)
    → read_digits m xs ≡ value k
    → d < 10
    → k * 10 + d < 2 ^ 64
    → read_digits m (xs ++ (b'0' + d) ∷ []) ≡ value (k * 10 + d)
read_digits-append m k d [] e digit small =
    subst (λ (n : ℕ). read_digits n ((b'0' + d) ∷ []) ≡ value (k * 10 + d))
      (sym (read_digits-nil m k e)) (last_digit k d digit small)
read_digits-append m k d (c ∷ xs) e digit small =
    let (rest, first) = reads_first m k c xs (xs ++ (b'0' + d) ∷ []) e in
    first ∙ read_digits-append (m * 10 + (c - b'0')) k d xs rest digit small

read_digits-digits :
    (rounds n : ℕ) → n ≤ rounds → n < 2 ^ 64 → read_digits 0 (digits rounds n) ≡ value n
unfolding digits
read_digits-digits zero n h small =
    last_digit 0 n (omega (arith, h)) (omega (arith, small)) ∙ ap value (omega arith)
read_digits-digits (suc rounds) n h small = elim (Bool-cases (ltb n 10)) [
  | inl one ↦ rw one (last_digit 0 n (ground arith) (omega (arith, small)) ∙ ap value (omega arith))
  | inr more ↦
      let front = read_digits-digits rounds (n / 10) (ground arith) (omega (arith, small)) in
      rw more (
        read_digits-append 0 (n / 10) (n % 10) (digits rounds (n / 10)) front (omega arith)
          (omega (arith, small))
        ∙ ap value (omega arith))
]

-- The first digit of a number is no sign.
starts :
    (rounds n : ℕ) → n ≤ rounds → (c : ℕ) × (cs : List ℕ) × (digits rounds n ≡ c ∷ cs) × (b'0' ≤ c)
unfolding digits
starts zero n h = (b'0' + n, [], refl, omega arith)
starts (suc rounds) n h = elim (Bool-cases (ltb n 10)) [
  | inl one ↦ (b'0' + n, [], rw one refl, omega arith)
  | inr more ↦
      let (c, cs, e, digit) = starts rounds (n / 10) (ground arith) in
      (c, cs ++ (b'0' + n % 10) ∷ [], rw (more, e) refl, digit)
]

-- An int of 64 bits.
abbrev pub IsInt64 : ℤ → Type 0
IsInt64 (pos n) = n < 2 ^ 63
IsInt64 (negsuc n) = n < 2 ^ 63

unsigned_read :
    (n : ℕ) (c : ℕ) (cs : List ℕ)
    → decimal n ≡ c ∷ cs
    → n < 2 ^ 64
    → read_digits 0 (c ∷ cs) ≡ value n
unsigned_read n c cs e small =
    ap (read_digits 0) (sym e) ∙ read_digits-digits n n (omega arith) small

-- strconv.Atoi reads back each int that is printed with %d.
pub atoi-format : (z : ℤ) → IsInt64 z → atoi (format z) ≡ number z
unfolding atoi format
atoi-format (pos n) h =
    let (c, cs, e, digit) = starts n n (omega arith) in
    let read = unsigned_read n c cs e (omega (arith, h)) in rw e (ground (arith, read, digit, h))
atoi-format (negsuc n) h =
    let (c, cs, e, digit) = starts (suc n) (suc n) (omega arith) in
    let read = unsigned_read (suc n) c cs e (omega (arith, h)) in
    rw e (ground (arith, read, digit, h))
