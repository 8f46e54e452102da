-- ===== src/Js/Eq.antt =====
-- Keys that `Map`, `Set` and `===` compare: texts, and instants with NaN as one more key.
use push_and_pray.Prelude.{◌≡◌, refl, ◌↔◌, Bool, true, false, Option, none, some, arith, ◌==◌}
use push_and_pray.Prelude.Int.{ℤ, pos, negsuc}
use push_and_pray.Prelude.Text.{Text, text_eq, text_eq_iff}

pub record Eq {ℓ} (A : Type ℓ) : Type ℓ where
  pub beq : A → A → Bool
  pub beq_iff : (a b : A) → (beq a b ≡ true) ↔ (a ≡ b)

infix 50 ◌===◌
abbrev pub ◌===◌ {ℓ} : {A : Type ℓ} ⦃e : Eq A⦄ → A → A → Bool
◌===◌ ⦃e⦄ = e.beq

instance abbrev pub text_key : Eq Text
text_key = record { beq = text_eq; beq_iff = text_eq_iff }

-- The value of `Date.parse`: milliseconds, or NaN.
abbrev pub Instant : Type 0
Instant = Option ℤ

abbrev pub int_eq : ℤ → ℤ → Bool
int_eq (pos a) (pos b) = a == b
int_eq (negsuc a) (negsuc b) = a == b
int_eq _ _ = false

-- SameValueZero, by which `Map` compares its keys: NaN is the same key as NaN.
abbrev pub same_value_zero : Instant → Instant → Bool
same_value_zero none none = true
same_value_zero (some a) (some b) = int_eq a b
same_value_zero _ _ = false

pub same_value_zero_iff : (a b : Instant) → (same_value_zero a b ≡ true) ↔ (a ≡ b)
same_value_zero_iff a b = ground arith

instance abbrev pub instant_key : Eq Instant
instant_key = record { beq = same_value_zero; beq_iff = same_value_zero_iff }

module _ {ℓ} {A : Type ℓ} ⦃e : Eq A⦄ where
  pub ===_refl : (a : A) → (a === a) ≡ true
  ===_refl a = (e.beq_iff a a).1 refl

  pub ===→eq : (a b : A) → (a === b) ≡ true → a ≡ b
  ===→eq a b h = (e.beq_iff a b).0 h
