-- ===== src/Keymap/Lookup.antt =====
-- What `usb_keycode` answers, over every key symbol.
use dracd.Common.{
  ◌≤◌, inl, inr, ℕ, zero, suc, ◌+◌, ◌<◌, ◌≡◌, refl, ◌≢◌, ◌↔◌, ◌⊎◌, Bool, true, false, ◌&&◌, ℤ, pos,
  negsuc, Outcome, ok, panics, index_out_of_range, arith, leb, ltb, ◌==◌, if◌then◌else◌,
}
use dracd.Keymap.{usb_keycode}
use native.Mathlib.Decide.{dec_lt, ℕ_discrete}

-- A test of the `n` numbers from `first` on.
passes : (ℕ → Bool) → (first n : ℕ) → Bool
passes test first zero = true
passes test first (suc n) = test first && passes test (suc first) n

test-passes :
    (test : ℕ → Bool) (first n key : ℕ)
    → passes test first n ≡ true
    → first ≤ key
    → key < first + n
    → test key ≡ true
unfolding passes
test-passes test first zero key all low high = absurd (omega arith)
test-passes test first (suc n) key all low high = elim (ℕ_discrete first key) [
  | yes same ↦ ground (arith, same)
  | no other ↦
      test-passes test (suc first) n key (ground arith) (omega (arith, other)) (omega arith)
]

-- The answer is a scan code below 0xe7 or -1.
abbrev answers : Outcome ℤ → Bool
answers (ok (pos n)) = ltb n 0xe7
answers (ok (negsuc n)) = n == 0
answers (panics p) = false

low_answers : passes (λ key. answers (usb_keycode key)) 0 255 ≡ true
unfolding passes usb_keycode
low_answers = refl

high_answers : passes (λ key. answers (usb_keycode key)) 0xff00 256 ≡ true
unfolding passes usb_keycode
high_answers = refl

Answers_cases :
    (r : Outcome ℤ)
    → answers r ≡ true
    → ((n : ℕ) × (n < 0xe7) × (r ≡ ok (pos n))) ⊎ (r ≡ ok (negsuc 0))
Answers_cases (ok (pos n)) h = inl (n, ground arith, refl)
Answers_cases (ok (negsuc n)) h = inr (ground arith)
Answers_cases (panics p) h = cc

abbrev pub Answers : Outcome ℤ → Type 0
Answers r = ((n : ℕ) × (n < 0xe7) × (r ≡ ok (pos n))) ⊎ (r ≡ ok (negsuc 0))

pick_last :
    (key : ℕ) (x y z : Outcome ℤ)
    → 255 < key
    → (key < 0xff00) ⊎ (0xffff < key)
    → (if leb key 255 then x else if leb 0xff00 key && leb key 0xffff then y else z) ≡ z
pick_last key x y z lo out = ground arith

usb_keycode_outside :
    (key : ℕ) → 255 < key → (key < 0xff00) ⊎ (0xffff < key) → usb_keycode key ≡ ok (negsuc 0)
unfolding usb_keycode
usb_keycode_outside key lo out = pick_last key _ _ _ lo out

pub usb_keycode_255 : usb_keycode 255 ≡ panics index_out_of_range
unfolding usb_keycode
usb_keycode_255 = refl

-- For every key symbol but 255 the lookup answers a scan code below 0xe7, or -1 for none.
pub usb_keycode-Answers : (key : ℕ) → key ≢ 255 → Answers (usb_keycode key)
usb_keycode-Answers key ne = elim (dec_lt key 255) [
  | yes low ↦ Answers_cases _ (
      test-passes (λ k. answers (usb_keycode k)) 0 255 key low_answers (omega arith)
        (omega (arith, low)))
  | no not_low ↦ elim (dec_lt key 0xff00) [
    | yes mid ↦ inr (usb_keycode_outside key (omega arith) (inl mid))
    | no not_mid ↦ elim (dec_lt 0xffff key) [
      | yes above ↦ inr (usb_keycode_outside key (omega arith) (inr above))
      | no high ↦ Answers_cases _ (
          test-passes (λ k. answers (usb_keycode k)) 0xff00 256 key high_answers (omega arith)
            (omega arith))
    ]
  ]
]

-- The lookup panics on the key symbol 255 (ydiaeresis) and on no other.
usb_keycode_panics_iff : (key : ℕ) → (usb_keycode key ≡ panics index_out_of_range) ↔ (key ≡ 255)
usb_keycode_panics_iff key = (only, λ e. rw e usb_keycode_255)
  where
    only : usb_keycode key ≡ panics index_out_of_range → key ≡ 255
    only h = elim (ℕ_discrete key 255) [
      | yes e ↦ e
      | no ne ↦ elim (usb_keycode-Answers key ne) [
        | inl (n, _, e) ↦ absurd (cc)
        | inr e ↦ absurd (cc)
      ]
    ]

abbrev letter : Outcome ℤ → ℕ → Bool
letter (ok (pos n)) i = n == 4 + i
letter _ i = false

letter_lem : (r : Outcome ℤ) (i : ℕ) → letter r i ≡ true → r ≡ ok (pos (4 + i))
letter_lem (ok (pos n)) i h = ground arith
letter_lem (ok (negsuc n)) i h = cc
letter_lem (panics p) i h = cc

upper_letters : passes (λ i. letter (usb_keycode (b'A' + i)) i) 0 26 ≡ true
unfolding passes usb_keycode
upper_letters = refl

lower_letters : passes (λ i. letter (usb_keycode (b'a' + i)) i) 0 26 ≡ true
unfolding passes usb_keycode
lower_letters = refl

-- The letters A to Z and a to z have the consecutive scan codes from 4 on, in either case.
usb_keycode_letters :
    (i : ℕ)
    → i < 26
    → (usb_keycode (b'A' + i) ≡ ok (pos (4 + i))) × (usb_keycode (b'a' + i) ≡ ok (pos (4 + i)))
usb_keycode_letters i h = (
  letter_lem _ i
      (test-passes (λ i. letter (usb_keycode (b'A' + i)) i) 0 26 i upper_letters (omega arith) h),
  letter_lem _ i
      (test-passes (λ i. letter (usb_keycode (b'a' + i)) i) 0 26 i lower_letters (omega arith) h),
)
