-- ===== src/Prelude/Sort.antt =====
-- Python's `sorted` by a text: stable, by code points.
use Prim.Native.String.{String, compare}
use Prim.Native.Nat.{lt, eq, gt}
use mathlib.Core.List.{List, [], ◌∷◌}

module _ {ℓ} {A : Type ℓ} (key : A → String) where
  unfoldable pub insert_by : A → List A → List A
  insert_by a [] = a ∷ []
  insert_by a (b ∷ bs) =
      let later = b ∷ insert_by a bs in
      elim (compare (key a) (key b)) [ lt ↦ a ∷ b ∷ bs | eq ↦ a ∷ b ∷ bs | gt ↦ later ]

  -- sorted(xs, key=…)
  unfoldable pub sort_by : List A → List A
  sort_by [] = []
  sort_by (a ∷ as_) = insert_by a (sort_by as_)
