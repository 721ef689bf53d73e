-- ===== src/Drac/Recents/Mru.antt =====
-- recentDracs is the list of the ten hosts used last, without repetition.
use dracd.Common.{
  ap₂, sym, ℕ, zero, suc, ◌≤◌, ◌≡◌, refl, ap, ◌∙◌, List, [], ◌∷◌, Option, none, some, Text, length,
  take, ltb, same_bytes, same_bytes_iff, same_bytes_self, if◌then◌else◌, arith, inl, inr,
  Bool-cases,
}
use dracd.Drac.Recents.{
  RecentDracEntry, Credentials, entry, or_default, recall, remove_back, push, remember,
  get_recent_drac,
}

-- The entries of other hosts.
pub others : Text → List RecentDracEntry → List RecentDracEntry
others host [] = []
others host (de ∷ rest) =
    if same_bytes de.host host then others host rest else de ∷ others host rest

-- No two entries have one host, and there are ten at most.
abbrev pub Distinct : List RecentDracEntry → Type 0
Distinct [] = Unit
Distinct (de ∷ rest) = (get_recent_drac de.host rest ≡ none) × Distinct rest

others_absent :
    (host : Text) (l : List RecentDracEntry) → get_recent_drac host l ≡ none → others host l ≡ l
unfolding others get_recent_drac
others_absent host [] h = refl
others_absent host (de ∷ rest) h = ground (arith, others_absent host rest)

recall-others :
    (host : Text) (c : Credentials) (l : List RecentDracEntry)
    → Distinct l
    → (recall host c l).1 ≡ others host l
unfolding recall others
recall-others host c [] d = refl
recall-others host c (de ∷ rest) d =
    ground
      (arith, same_bytes_iff de.host host, others_absent host rest, recall-others host c rest d.1)

get_recent_drac-others :
    (host other : Text) (l : List RecentDracEntry)
    → get_recent_drac other (others host l)
      ≡ (if same_bytes host other then none else get_recent_drac other l)
unfolding others get_recent_drac
get_recent_drac-others host other [] = ground arith
get_recent_drac-others host other (de ∷ rest) = ground (
  arith,
  same_bytes_iff de.host host,
  same_bytes_iff host other,
  same_bytes_iff de.host other,
  get_recent_drac-others host other rest,
)

length-others-le : (host : Text) (l : List RecentDracEntry) → length (others host l) ≤ length l
unfolding others
length-others-le host [] = omega arith
length-others-le host (de ∷ rest) = ground (arith, length-others-le host rest)

remove_back-take {ℓ} :
    {A : Type ℓ} (n : ℕ) (xs : List A) → length xs ≡ suc n → remove_back xs ≡ take n xs
unfolding remove_back
remove_back-take n [] e = absurd (omega arith)
remove_back-take zero (x ∷ []) e = refl
remove_back-take (suc n) (x ∷ []) e = absurd (omega arith)
remove_back-take zero (x ∷ y ∷ xs) e = absurd (omega arith)
remove_back-take (suc n) (x ∷ y ∷ xs) e = ap (◌∷◌ x) (remove_back-take n (y ∷ xs) (omega arith))

take_all {ℓ} : {A : Type ℓ} (n : ℕ) (xs : List A) → length xs ≤ n → take n xs ≡ xs
take_all zero [] h = refl
take_all zero (x ∷ xs) h = absurd (omega arith)
take_all (suc n) [] h = refl
take_all (suc n) (x ∷ xs) h = ap (◌∷◌ x) (take_all n xs (omega arith))

push-take :
    (de : RecentDracEntry) (l : List RecentDracEntry) → length l ≤ 10 → push de l ≡ take 10 (de ∷ l)
unfolding push
push-take de l h = elim (Bool-cases (ltb 10 (length (de ∷ l)))) [
  | inl long ↦ rw long (remove_back-take 10 (de ∷ l) (ground arith))
  | inr short ↦ rw short (sym (take_all 10 (de ∷ l) (ground arith)))
]

abbrev pub fill : Credentials → Option RecentDracEntry → Credentials
fill c none = c
fill c (some de) = record {
  login = or_default c.login de.username;
  passwd = or_default c.passwd de.password;
}

-- The credentials that the session gets: those given, and for an empty one that of the host's entry.
abbrev pub resolved : Text → Credentials → List RecentDracEntry → Credentials
resolved host c l = fill c (get_recent_drac host l)

recall-resolved :
    (host : Text) (c : Credentials) (l : List RecentDracEntry)
    → (recall host c l).0 ≡ resolved host c l
unfolding recall get_recent_drac
recall-resolved host c [] = refl
recall-resolved host c (de ∷ rest) = ground (arith, recall-resolved host c rest)

-- What setupDracClient does to recentDracs is: the session's credentials are those given, an empty one
-- being filled from the host's entry, and the new list is the host's new entry in front of the entries
-- of all other hosts in their order, cut off after ten.
pub remember_lem :
    (host : Text) (now : ℕ) (c : Credentials) (l : List RecentDracEntry)
    → Distinct l
    → length l ≤ 10
    → remember host now c l
      ≡ (resolved host c l, take 10 (entry host now (resolved host c l) ∷ others host l))
unfolding remember
remember_lem host now c l d h =
    ap₂ (λ (c' : Credentials) (rest : List RecentDracEntry). (c', push (entry host now c') rest))
      (recall-resolved host c l) (recall-others host c l d)
    ∙ ap (λ (k : List RecentDracEntry). (resolved host c l, k))
        (push-take (entry host now (resolved host c l)) (others host l)
          (omega (arith, length-others-le host l)))

get_recent_drac-others_self :
    (host : Text) (l : List RecentDracEntry) → get_recent_drac host (others host l) ≡ none
get_recent_drac-others_self host l = get_recent_drac-others host host l ∙ rw (same_bytes_self host)

absent-take :
    (host : Text) (n : ℕ) (l : List RecentDracEntry)
    → get_recent_drac host l ≡ none
    → get_recent_drac host (take n l) ≡ none
unfolding get_recent_drac
absent-take host zero l h = refl
absent-take host (suc n) [] h = refl
absent-take host (suc n) (de ∷ rest) h = ground (arith, absent-take host n rest)

absent-others :
    (host other : Text) (l : List RecentDracEntry)
    → get_recent_drac other l ≡ none
    → get_recent_drac other (others host l) ≡ none
absent-others host other l h = ground (arith, get_recent_drac-others host other l)

Distinct-others : (host : Text) (l : List RecentDracEntry) → Distinct l → Distinct (others host l)
unfolding others
Distinct-others host [] d = tt
Distinct-others host (de ∷ rest) d = elim (Bool-cases (same_bytes de.host host)) [
  | inl e ↦ rw e (Distinct-others host rest d.1)
  | inr e ↦ rw e (absent-others host de.host rest d.0, Distinct-others host rest d.1)
]

Distinct-take : (n : ℕ) (l : List RecentDracEntry) → Distinct l → Distinct (take n l)
Distinct-take zero l d = tt
Distinct-take (suc n) [] d = tt
Distinct-take (suc n) (de ∷ rest) d = (absent-take de.host n rest d.0, Distinct-take n rest d.1)

length-take-le {ℓ} : {A : Type ℓ} (n : ℕ) (xs : List A) → length (take n xs) ≤ n
length-take-le zero xs = omega arith
length-take-le (suc n) [] = omega arith
length-take-le (suc n) (x ∷ xs) = omega (arith, length-take-le n xs)

-- recentDracs keeps its shape: distinct hosts, ten at most. The host itself is found at once, with the
-- credentials that the session uses.
pub remember-Distinct :
    (host : Text) (now : ℕ) (c : Credentials) (l : List RecentDracEntry)
    → Distinct l
    → length l ≤ 10
    → Distinct (remember host now c l).1
      × (length (remember host now c l).1 ≤ 10)
      × (get_recent_drac host (remember host now c l).1
          ≡ some (entry host now (remember host now c l).0))
unfolding get_recent_drac
remember-Distinct host now c l d h =
    let new : RecentDracEntry = entry host now (resolved host c l) in
    let all : List RecentDracEntry = new ∷ others host l in
    let distinct : Distinct (take 10 all) =
      Distinct-take 10 all (get_recent_drac-others_self host l, Distinct-others host l d) in
    rw (remember_lem host now c l d h) (distinct, length-take-le 10 all, rw (same_bytes_self host))
