-- ===== src/Format/UnitShort.antt =====
-- `unitShort`.
use mathlib.Core.List.{head-eq_of_cons-eq, tail-eq_of_cons-eq}
use push_and_pray.Prelude.{ℕ, ◌≡◌, refl, ap, true, some, [], ◌∷◌, ◌++◌, map, arith, ◌==◌}
use push_and_pray.Prelude.Text.{Text, codes, strip_prefix, replace_first}
use push_and_pray.Format.{upper, same_letter, drop_currency, unit_short}

eq_self : (n : ℕ) → (n == n) ≡ true
eq_self n = ground arith

strip_prefix-same_letter :
    (ps p rest : Text)
    → map upper p ≡ map upper ps
    → strip_prefix same_letter ps (p ++ rest) ≡ some rest
unfolding strip_prefix
strip_prefix-same_letter [] [] rest h = refl
strip_prefix-same_letter [] (c ∷ p) rest h = cc
strip_prefix-same_letter (d ∷ ps) [] rest h = cc
strip_prefix-same_letter (d ∷ ps) (c ∷ p) rest h =
    let head : upper c ≡ upper d = head-eq_of_cons-eq h in
    let same : same_letter d c ≡ true = rw head (eq_self (upper d)) in
    rw same (strip_prefix-same_letter ps p rest (tail-eq_of_cons-eq h))

-- The prefix "USD per " is dropped in whatever mixture of upper and lower case it is written, and what
-- stands behind it is shortened as if it stood alone.
pub unit_short-append :
    (p rest : Text)
    → map upper p ≡ map upper (codes "USD per ")
    → unit_short (p ++ rest)
      ≡ replace_first
          (codes "gallon")
          (codes "gal")
          (replace_first (codes "barrel") (codes "bbl") rest)
unfolding unit_short
unit_short-append p rest h =
    let found = strip_prefix-same_letter (codes "USD per ") p rest h in
    let dropped : drop_currency (p ++ rest) ≡ rest = rw (found, drop_currency) in
    ap
      (λ u.
        replace_first (codes "gallon") (codes "gal")
          (replace_first (codes "barrel") (codes "bbl") u))
      dropped
