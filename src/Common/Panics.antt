-- ===== src/Common/Panics.antt =====
-- What a piece of Go code comes to: a value or a run-time panic.

pub data Panic : Type 0 where
  index_out_of_range slice_out_of_range nil_dereference unimplemented type_assertion : Panic

pub data Outcome {ℓ} (A : Type ℓ) : Type ℓ where
  ok : A → Outcome A
  panics : Panic → Outcome A

infixl 5 ◌>>=◌
abbrev pub ◌>>=◌ {ℓ κ} : {A : Type ℓ} {B : Type κ} → Outcome A → (A → Outcome B) → Outcome B
ok a >>= f = f a
panics p >>= f = panics p
