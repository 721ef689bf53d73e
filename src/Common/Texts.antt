-- ===== src/Common/Texts.antt =====
-- The texts of the program as bytes, and the functions of Go's strings that it calls.
use dracd.Common.Tests.{Bool-cases, Option-cases, ◌==◌, if◌then◌else◌}
use dracd.Common.Lists.{Text, length, drop, drop-length}
use Prim.Native.Char.{code}
use Prim.Native.String.{String}
use Prim.Native.Nat.{ℕ, suc, ◌+◌}
use mathlib.Core.Path.{◌≡◌, refl, ap}
use mathlib.Core.Bool.{Bool, true, false, ◌&&◌}
use mathlib.Core.List.{List, [], ◌∷◌, ◌++◌}
use mathlib.Core.Option
use mathlib.Core.Option.{Option, none, some}
use native.Mathlib.Nat.{zero-add}
use mathlib.Core.Logic.{inl, inr}
use native.Mathlib.Omega.{arith}

-- The bytes of a text in ASCII.
abbrev pub codes : String → List ℕ
codes String.[] = []
codes (String.◌∷◌ c s) = code c ∷ codes s

unfoldable pub has_prefix : Text → Text → Bool
has_prefix [] s = true
has_prefix (c ∷ p) [] = false
has_prefix (c ∷ p) (d ∷ s) = c == d && has_prefix p s

-- strings.Index(s, p); none for -1.
unfoldable pub index_of : Text → Text → Option ℕ
unfolding has_prefix
index_of p [] = if has_prefix p [] then some 0 else none
index_of p (c ∷ s) =
    let rest = index_of p s in if has_prefix p (c ∷ s) then some 0 else Option.map suc rest

-- strings.Contains(s, p).
abbrev pub contains : Text → Text → Bool
contains s p = elim (index_of p s) [ none ↦ false | some i ↦ true ]

has_prefix-append : (p s : Text) → has_prefix p s ≡ true → (rest : Text) × (s ≡ p ++ rest)
unfolding has_prefix
has_prefix-append [] s h = (s, refl)
has_prefix-append (c ∷ p) [] h = absurd (ground arith)
has_prefix-append (c ∷ p) (d ∷ s) h =
    let (rest, e) = has_prefix-append p s (ground arith) in (rest, ground arith)

-- Where Index finds a prefix, it stands, and what follows it is what `drop` leaves.
pub index_of-append :
    (p s : Text) (i : ℕ)
    → index_of p s ≡ some i
    → (before rest : Text) × (length before ≡ i) × (s ≡ before ++ (p ++ rest))
unfolding index_of
index_of-append p [] i e = elim (Bool-cases (has_prefix p [])) [
  | inl h ↦ let (rest, q) = has_prefix-append p [] h in ([], rest, ground arith, q)
  | inr h ↦ absurd (ground arith)
]
index_of-append p (c ∷ s) i e = elim (Bool-cases (has_prefix p (c ∷ s))) [
  | inl h ↦ let (rest, q) = has_prefix-append p (c ∷ s) h in ([], rest, ground arith, q)
  | inr h ↦ elim (Option-cases (index_of p s)) [
    | inl missing ↦ absurd (ground arith)
    | inr (j, found) ↦
        let (before, rest, l, q) = index_of-append p s j found in
        (c ∷ before, rest, ground arith, ap (◌∷◌ c) q)
  ]
]

pub drop-append-append :
    (before p rest : Text) → drop (length before + length p) (before ++ (p ++ rest)) ≡ rest
drop-append-append [] p rest = rw zero-add (drop-length p rest)
drop-append-append (c ∷ before) p rest =
    let e : suc (length before) + length p ≡ suc (length before + length p) = omega arith in
    rw e (drop-append-append before p rest)
