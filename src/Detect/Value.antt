-- ===== src/Detect/Value.antt =====
-- What `get_value` finds in a page.
use dracd.Common.{
  ap₂, sym, ℕ, ◌+◌, ◌≡◌, refl, ap, ◌∙◌, [], ◌∷◌, ◌++◌, Option, some, true, false, Text, length,
  drop, All, ok, panics, Panic, arith, Option-cases, inl, inr, append-nil,
}
use dracd.Common.Texts.{index_of, index_of-append, drop-append-append}
use dracd.Detect.{is_end, until_end, slice_value, value_at, get_value}

until_end-append :
    (value after : Text) (t : ℕ)
    → All (λ c. is_end c ≡ false) value
    → is_end t ≡ true
    → until_end (value ++ t ∷ after) ≡ value
unfolding until_end
until_end-append [] after t plain stop = rw stop
until_end-append (c ∷ value) after t plain stop =
    rw (plain.0, until_end-append value after t plain.1 stop)

get_value-slice :
    (before prefix rest : Text)
    → index_of prefix (before ++ (prefix ++ rest)) ≡ some (length before)
    → get_value (before ++ (prefix ++ rest)) prefix ≡ slice_value rest
unfolding get_value value_at
get_value-slice before prefix rest found =
    ap (λ (i : Option ℕ). value_at i (before ++ (prefix ++ rest)) prefix) found
    ∙ ap slice_value (drop-append-append before prefix rest)

-- Where the prefix stands first, `get_value` reads a value of one byte or more up to the first end byte.
pub get_value-append :
    (before prefix value after : Text) (c t : ℕ)
    → index_of prefix (before ++ (prefix ++ (c ∷ (value ++ t ∷ after)))) ≡ some (length before)
    → All (λ d. is_end d ≡ false) (c ∷ value)
    → is_end t ≡ true
    → get_value (before ++ (prefix ++ (c ∷ (value ++ t ∷ after)))) prefix ≡ ok (c ∷ value)
unfolding slice_value
get_value-append before prefix value after c t found plain stop =
    get_value-slice before prefix (c ∷ (value ++ t ∷ after)) found
    ∙ ap (λ (v : Text). ok (c ∷ v)) (until_end-append value after t plain.1 stop)

-- Where an end byte follows the prefix at once, `get_value` does not answer the empty value, but that
-- byte and what follows it up to the next end byte.
get_value_empty :
    (before prefix value after : Text) (t u : ℕ)
    → index_of prefix (before ++ (prefix ++ (t ∷ (value ++ u ∷ after)))) ≡ some (length before)
    → is_end t ≡ true
    → All (λ d. is_end d ≡ false) value
    → is_end u ≡ true
    → get_value (before ++ (prefix ++ (t ∷ (value ++ u ∷ after)))) prefix ≡ ok (t ∷ value)
unfolding slice_value
get_value_empty before prefix value after t u found ends plain stop =
    get_value-slice before prefix (t ∷ (value ++ u ∷ after)) found
    ∙ ap (λ (v : Text). ok (t ∷ v)) (until_end-append value after u plain stop)

last : (rest : Text) (p : Panic) → slice_value rest ≡ panics p → rest ≡ []
unfolding slice_value
last [] p h = refl
last (c ∷ rest) p h = absurd (cc)

panics-append :
    (str prefix : Text) (i : ℕ) (p : Panic)
    → index_of prefix str ≡ some i
    → slice_value (drop (i + length prefix) str) ≡ panics p
    → (before : Text) × (str ≡ before ++ prefix)
panics-append str prefix i p e h =
    let (before, rest, l, q) = index_of-append prefix str i e in
    let dropped : drop (i + length prefix) str ≡ rest =
      ap₂ (λ (k : ℕ) (s : Text). drop (k + length prefix) s) (sym l) q
      ∙ drop-append-append before prefix rest in
    let nothing : rest ≡ [] = last rest p (ap slice_value (sym dropped) ∙ h) in
    (
      before,
      q ∙ ap (λ (r : Text). before ++ (prefix ++ r)) nothing ∙ ap (◌++◌ before) (append-nil prefix),
    )

-- `get_value` panics only on a page that ends where the prefix does.
get_value_panics :
    (str prefix : Text) (p : Panic)
    → get_value str prefix ≡ panics p
    → (before : Text) × (str ≡ before ++ prefix)
unfolding get_value value_at
get_value_panics str prefix p h = elim (Option-cases (index_of prefix str)) [
  | inl e ↦ absurd (ground arith)
  | inr (i, e) ↦
      panics-append str prefix i p e (ap (λ (o : Option ℕ). value_at o str prefix) (sym e) ∙ h)
]
