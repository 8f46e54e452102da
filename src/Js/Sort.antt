-- ===== src/Js/Sort.antt =====
-- `array.sort(compare)`: the stable sort by the sign of `compare`, where NaN counts as 0.
pub mod Laws
use push_and_pray.Prelude.{Bool, true, false, Option, none, some, List, [], ◌∷◌, if◌then◌else◌}
use push_and_pray.Prelude.Int.{ℤ, pos, negsuc, ltb_ℤ}

-- What a comparator returns: an integer, or NaN.
abbrev pub is_positive : Option ℤ → Bool
is_positive none = false
is_positive (some v) = ltb_ℤ (pos 0) v

module _ {ℓ} {A : Type ℓ} (compare : A → A → Option ℤ) where
  -- Behind all entries that must come before it, and before its equals.
  insert : A → List A → List A
  insert x [] = x ∷ []
  insert x (y ∷ ys) = if is_positive (compare x y) then y ∷ insert x ys else x ∷ y ∷ ys

  unfoldable pub sort : List A → List A
  unfolding insert
  sort [] = []
  sort (x ∷ xs) = insert x (sort xs)
