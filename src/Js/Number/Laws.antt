-- ===== src/Js/Number/Laws.antt =====
-- What the decimal text of a number spells.
use push_and_pray.Prelude.{
  ℕ, zero, suc, ◌+◌, ◌-◌, ◌*◌, ◌/◌, ◌%◌, ◌<◌, ◌≡◌, refl, inl, inr, Bool-cases, [], ◌∷◌, ◌++◌, arith,
  ltb,
}
use push_and_pray.Prelude.Text.{Text}
use push_and_pray.Js.Number.{decimal, number_text}

-- The number that a text of digits spells, behind the digits of `acc`.
unfoldable pub spelled : ℕ → Text → ℕ
spelled acc [] = acc
spelled acc (c ∷ s) = spelled (acc * 10 + (c - b'0')) s

spelled-append :
    (acc : ℕ) (s : Text) (c : ℕ) → spelled acc (s ++ (c ∷ [])) ≡ spelled acc s * 10 + (c - b'0')
unfolding spelled
spelled-append acc [] c = refl
spelled-append acc (d ∷ s) c = spelled-append (acc * 10 + (d - b'0')) s c

-- Fuel above the number is enough.
spelled-decimal : (fuel n : ℕ) → n < fuel → spelled 0 (decimal fuel n) ≡ n
unfolding spelled decimal
spelled-decimal zero n enough = absurd (omega arith)
spelled-decimal (suc fuel) n enough = elim (Bool-cases (ltb n 10)) [
  | inl e ↦ rw e (omega arith)
  | inr e ↦
      rw
        (
          e,
          spelled-append 0 (decimal fuel (n / 10)) (n % 10 + b'0'),
          spelled-decimal fuel (n / 10) (ground arith),
        )
        (omega arith)
]

pub spelled-number_text : (n : ℕ) → spelled 0 (number_text n) ≡ n
unfolding number_text
spelled-number_text n = spelled-decimal (suc n) n (omega arith)
