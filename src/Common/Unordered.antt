-- ===== src/Common/Unordered.antt =====
-- Numbers in a list, whatever their order.
use dracd.Common.Lists.{count}
use mathlib.Core.List.{List}
use mathlib.Core.Path.{◌≡◌, ap}
use mathlib.Core.Quot
use mathlib.Core.Quot.{Quot}
use native.Mathlib.Nat.{ℕ_set}
use Prim.Native.Nat.{ℕ}

abbrev pub IsReordering : (vs ws : List ℕ) → Type 0
IsReordering vs ws = (g : ℕ) → count g vs ≡ count g ws

abbrev pub Unordered : Type 0
Unordered = Quot IsReordering

abbrev pub unordered : List ℕ → Unordered
unordered vs = Quot.mk vs

how_often : ℕ → Unordered → ℕ
how_often g = Quot.lift ℕ_set (λ vs. count g vs) (λ vs ws same. same g)

module _ {vs ws : List ℕ} where
  pub unordered-IsReordering : IsReordering vs ws → unordered vs ≡ unordered ws
  unordered-IsReordering same = Quot.sound same

  pub IsReordering-unordered : unordered vs ≡ unordered ws → IsReordering vs ws
  unfolding how_often
  IsReordering-unordered e g = ap (how_often g) e
