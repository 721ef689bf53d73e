-- ===== src/Common/Lists.antt =====
-- Lists measured and indexed by native numbers.
use mathlib.Core.Logic.{◌≢◌, ◌↔◌}
use mathlib.Core.Path.{◌∙◌, ◌≡◌, refl, ap}
use mathlib.Core.List.{map, List, [], ◌∷◌, ◌++◌}
use Prim.Native.Nat.{ℕ, zero, suc, ◌+◌, ◌≤◌}
use mathlib.Core.Option
use mathlib.Core.Option.{Option, none, some}
use dracd.Common.Tests.{if◌then◌else◌, ◌==◌}
use mathlib.Core.Bool.{Bool, true, false, ◌&&◌}
use native.Mathlib.Omega.{arith}

module _ {ℓ} {A : Type ℓ} where
  abbrev pub length : List A → ℕ
  length [] = 0
  length (x ∷ xs) = suc (length xs)

  abbrev pub get_elem? : List A → ℕ → Option A
  get_elem? [] i = none
  get_elem? (x ∷ xs) zero = some x
  get_elem? (x ∷ xs) (suc i) = get_elem? xs i

  abbrev pub take : ℕ → List A → List A
  take zero xs = []
  take (suc n) [] = []
  take (suc n) (x ∷ xs) = x ∷ take n xs

  abbrev pub drop : ℕ → List A → List A
  drop zero xs = xs
  drop (suc n) [] = []
  drop (suc n) (x ∷ xs) = drop n xs

  -- `P` holds of every element.
  abbrev pub All {κ} : (A → Type κ) → List A → Type κ
  All P [] = Unit {κ}
  All P (x ∷ xs) = P x × All P xs

  pub length-append : (xs ys : List A) → length (xs ++ ys) ≡ length xs + length ys
  length-append [] ys = omega arith
  length-append (x ∷ xs) ys = omega (arith, length-append xs ys)

  pub take-length : (xs ys : List A) → take (length xs) (xs ++ ys) ≡ xs
  take-length [] ys = refl
  take-length (x ∷ xs) ys = ap (◌∷◌ x) (take-length xs ys)

  pub drop-length : (xs ys : List A) → drop (length xs) (xs ++ ys) ≡ ys
  drop-length [] ys = refl
  drop-length (x ∷ xs) ys = drop-length xs ys

  pub length-drop-le : (n : ℕ) (xs : List A) → length (drop n xs) ≤ length xs
  length-drop-le zero xs = omega arith
  length-drop-le (suc n) [] = omega arith
  length-drop-le (suc n) (x ∷ xs) = omega (arith, length-drop-le n xs)

-- s == t on the bytes of two strings.
unfoldable pub same_bytes : List ℕ → List ℕ → Bool
same_bytes [] [] = true
same_bytes (a ∷ xs) (b ∷ ys) = a == b && same_bytes xs ys
same_bytes _ _ = false

pub same_bytes_self : (xs : List ℕ) → same_bytes xs xs ≡ true
unfolding same_bytes
same_bytes_self [] = refl
same_bytes_self (x ∷ xs) = ground (arith, same_bytes_self xs)

same_bytes→eq : (xs ys : List ℕ) → same_bytes xs ys ≡ true → xs ≡ ys
unfolding same_bytes
same_bytes→eq [] [] h = refl
same_bytes→eq [] (y ∷ ys) h = cc
same_bytes→eq (x ∷ xs) [] h = cc
same_bytes→eq (x ∷ xs) (y ∷ ys) h = ground (arith, same_bytes→eq xs ys)

pub same_bytes_iff : (xs ys : List ℕ) → (same_bytes xs ys ≡ true) ↔ (xs ≡ ys)
same_bytes_iff xs ys = (same_bytes→eq xs ys, λ e. rw e (same_bytes_self ys))

-- Text as Go's strings are: bytes.
abbrev pub Text : Type 0
Text = List ℕ

module _ {ℓ} {A : Type ℓ} where
  -- A change of the element at an index; out of range there is none.
  abbrev pub modify : List A → ℕ → (A → A) → List A
  modify [] i f = []
  modify (x ∷ xs) zero f = f x ∷ xs
  modify (x ∷ xs) (suc i) f = x ∷ modify xs i f

  pub get_elem?-modify :
      (xs : List A) (i j : ℕ) (f : A → A)
      → get_elem? (modify xs i f) j
        ≡ (if i == j then Option.map f (get_elem? xs j) else get_elem? xs j)
  get_elem?-modify [] i j f = ground arith
  get_elem?-modify (x ∷ xs) zero zero f = refl
  get_elem?-modify (x ∷ xs) zero (suc j) f = ground arith
  get_elem?-modify (x ∷ xs) (suc i) zero f = ground arith
  get_elem?-modify (x ∷ xs) (suc i) (suc j) f = ground (arith, get_elem?-modify xs i j f)

  -- The element at the end of a front.
  pub get_elem?-front :
      (front rest : List A) (x : A) → get_elem? (front ++ x ∷ rest) (length front) ≡ some x
  get_elem?-front [] rest x = refl
  get_elem?-front (y ∷ front) rest x = get_elem?-front front rest x

  pub modify-front :
      (front rest : List A) (x y : A)
      → modify (front ++ x ∷ rest) (length front) (λ _. y) ≡ (front ++ y ∷ []) ++ rest
  modify-front [] rest x y = refl
  modify-front (z ∷ front) rest x y = ap (λ l. z ∷ l) (modify-front front rest x y)

  pub get_elem?-append_end :
      (xs : List A) (x : A) (j : ℕ)
      → get_elem? (xs ++ x ∷ []) j ≡ (if length xs == j then some x else get_elem? xs j)
  get_elem?-append_end [] x zero = refl
  get_elem?-append_end [] x (suc j) = ground arith
  get_elem?-append_end (y ∷ xs) x zero = ground arith
  get_elem?-append_end (y ∷ xs) x (suc j) = ground (arith, get_elem?-append_end xs x j)

pub get_elem?-append {ℓ} :
    {A : Type ℓ} (xs ys : List A) (i : ℕ) (x : A)
    → get_elem? xs i ≡ some x
    → get_elem? (xs ++ ys) i ≡ some x
get_elem?-append [] ys i x e = absurd (cc)
get_elem?-append (a ∷ xs) ys zero x e = e
get_elem?-append (a ∷ xs) ys (suc i) x e = get_elem?-append xs ys i x e

pub ∷-eq {ℓ} : {A : Type ℓ} {a b : A} {xs ys : List A} → a ∷ xs ≡ b ∷ ys → (a ≡ b) × (xs ≡ ys)
∷-eq e = (cc, cc)

-- Elements of two lists that agree under two functions.
pub matched {ℓ κ μ} :
    {A : Type ℓ} {B : Type κ} {C : Type μ} (f : A → C) (g : B → C) (xs : List A) (ys : List B)
    (i : ℕ) (y : B)
    → map f xs ≡ map g ys
    → get_elem? ys i ≡ some y
    → (x : A) × (get_elem? xs i ≡ some x) × (f x ≡ g y)
matched f g xs [] i y e h = absurd (cc)
matched f g [] (b ∷ ys) i y e h = absurd (cc)
matched f g (a ∷ xs) (b ∷ ys) zero y e h =
    let same : b ≡ y = cc in (a, refl, (∷-eq e).0 ∙ ap g same)
matched f g (a ∷ xs) (b ∷ ys) (suc i) y e h = matched f g xs ys i y (∷-eq e).1 h

-- A Go map as an association list: a write replaces the entry of its key or adds one.
module _ {ℓ} {V : Type ℓ} where
  abbrev pub lookup : Text → List (Text × V) → Option V
  lookup k [] = none
  lookup k ((j, v) ∷ m) = if same_bytes j k then some v else lookup k m

  abbrev pub insert : Text → V → List (Text × V) → List (Text × V)
  insert k v [] = (k, v) ∷ []
  insert k v ((j, w) ∷ m) = if same_bytes j k then (k, v) ∷ m else (j, w) ∷ insert k v m

  pub lookup-insert :
      (k j : Text) (v : V) (m : List (Text × V))
      → lookup j (insert k v m) ≡ (if same_bytes k j then some v else lookup j m)
  lookup-insert k j v [] = refl
  lookup-insert k j v ((i, w) ∷ m) =
      ground
        (arith, same_bytes_iff k j, same_bytes_iff i k, same_bytes_iff i j, lookup-insert k j v m)

-- `delete(m, k)`.
unfoldable pub delete {ℓ} : {V : Type ℓ} → Text → List (Text × V) → List (Text × V)
delete k [] = []
delete k ((j, v) ∷ m) = let rest = delete k m in if same_bytes j k then rest else (j, v) ∷ rest

pub lookup-delete {ℓ} :
    {V : Type ℓ} (k j : Text) (m : List (Text × V))
    → lookup j (delete k m) ≡ (if same_bytes k j then none else lookup j m)
unfolding delete
lookup-delete k j [] = ground arith
lookup-delete k j ((i, w) ∷ m) =
    ground (arith, same_bytes_iff k j, same_bytes_iff i k, same_bytes_iff i j, lookup-delete k j m)

abbrev pub one : ℕ → ℕ → ℕ
one f g = if f == g then 1 else 0

-- How often a number stands in a list.
abbrev pub count : ℕ → List ℕ → ℕ
count g [] = 0
count g (f ∷ fs) = one f g + count g fs

pub count-append : (g : ℕ) (xs ys : List ℕ) → count g (xs ++ ys) ≡ count g xs + count g ys
count-append g [] ys = omega arith
count-append g (x ∷ xs) ys = omega (arith, count-append g xs ys)

pub append-ne {ℓ} : {A : Type ℓ} (xs : List A) (x : A) → xs ++ x ∷ [] ≢ []
append-ne [] x e = cc
append-ne (y ∷ xs) x e = cc
