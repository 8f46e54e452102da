-- ===== src/Checks/SparklineWitness.antt =====
-- The theorem on the sparkline of App.tsx at whole numbers from -1000 to 1000, with overflow.
use native.Mathlib.Nat.{div-le_self, div-le_of_le-mul, mul-le-mul_right}
use push_and_pray.Prelude.{
  List, All, ℕ, ◌+◌, ◌-◌, ◌*◌, ◌/◌, ◌≤◌, ◌<◌, ◌≡◌, refl, Bool, true, false, [], ◌∷◌, arith, leb,
  if◌then◌else◌, Bool-cases, inl, inr, ap, sym, ◌∙◌,
}
use push_and_pray.Platform.{Number}
use push_and_pray.App.View.Cards.{x_at, y_at, frame_of}
use push_and_pray.App.View.Cards.Sparkline.{OrderLaws, frame_of-IsBetween}

-- `num a` is the number a - 1000; every result that is out of range is `nan`.
data Small : Type 0 where
  nan : Small
  num : ℕ → Small

abbrev within : ℕ → Small
within a = if leb a 2000 then num a else nan

-- Minus the number n.
abbrev below : ℕ → Small
below n = if leb n 1000 then num (1000 - n) else nan

abbrev plus : Small → Small → Small
plus nan b = nan
plus (num a) nan = nan
plus (num a) (num b) = if leb 1000 (a + b) then within (a + b - 1000) else nan

abbrev difference : Small → Small → Small
difference nan b = nan
difference (num a) nan = nan
difference (num a) (num b) = if leb b (a + 1000) then within (a + 1000 - b) else nan

-- The operation on sizes f, with the sign of the result.
abbrev signed : (ℕ → ℕ → ℕ) → Small → Small → Small
signed f nan b = nan
signed f (num a) nan = nan
signed f (num a) (num b) =
    if leb 1000 a
    then if leb 1000 b
      then within (1000 + f (a - 1000) (b - 1000))
      else below (f (a - 1000) (1000 - b))
    else if leb 1000 b
    then below (f (1000 - a) (b - 1000))
    else within (1000 + f (1000 - a) (1000 - b))

abbrev is_zero : Small → Bool
is_zero nan = false
is_zero (num a) = if leb a 1000 then leb 1000 a else false

abbrev over : Small → Small → Small
over a b = if is_zero b then nan else signed (λ x y. x / y) a b

abbrev covers : Small → Small → Bool
covers nan b = false
covers (num a) nan = false
covers (num a) (num b) = leb b a

abbrev most : Small → Small → Small
most nan b = nan
most (num a) nan = nan
most (num a) (num b) = if leb a b then num b else num a

abbrev fewest : Small → Small → Small
fewest nan b = nan
fewest (num a) nan = nan
fewest (num a) (num b) = if leb a b then num a else num b

instance abbrev small_numbers : Number Small
small_numbers = record {
  literal = λ n. within (1000 + n);
  thousandth = num 1001;
  add = plus;
  sub = difference;
  mul = signed (λ x y. x * y);
  div = over;
  at_least = covers;
  larger = most;
  smaller = fewest;
  read = λ s. nan;
  to_fixed = λ digits x. [];
  format_number = λ x. [];
}

abbrev SmallLe : Small → Small → Type 0
SmallLe nan b = ⊥
SmallLe (num a) nan = ⊥
SmallLe (num a) (num b) = (a ≤ b) × (b ≤ 2000)

abbrev IsHalf : Small → Type 0
IsHalf nan = ⊥
IsHalf (num a) = (500 ≤ a) × (a ≤ 1500)

abbrev IsPositive : Small → Type 0
IsPositive nan = ⊥
IsPositive (num a) = (1000 < a) × (a ≤ 2000)

le_refl : (a : Small) → IsHalf a → SmallLe a a
le_refl nan v = absurd v
le_refl (num a) v = (omega arith, omega arith)

le_trans : (a b c : Small) → SmallLe a b → SmallLe b c → SmallLe a c
le_trans (num a) (num b) (num c) h k = (omega arith, omega arith)
le_trans nan b c h k = absurd h
le_trans (num a) nan c h k = absurd h
le_trans (num a) (num b) nan h k = absurd k

smaller_le : (a b : Small) → IsHalf a → IsHalf b → SmallLe (fewest a b) a × SmallLe (fewest a b) b
smaller_le nan b v w = absurd v
smaller_le (num a) nan v w = absurd w
smaller_le (num a) (num b) v w = elim (Bool-cases (leb a b)) [
  | inl e ↦ rw e ((omega arith, omega arith), (ground arith, omega arith))
  | inr e ↦ rw e ((ground arith, omega arith), (omega arith, omega arith))
]

fewest-IsHalf : (a b : Small) → IsHalf a → IsHalf b → IsHalf (fewest a b)
fewest-IsHalf nan b v w = absurd v
fewest-IsHalf (num a) nan v w = absurd w
fewest-IsHalf (num a) (num b) v w = elim (Bool-cases (leb a b)) [ inl e ↦ rw e v | inr e ↦ rw e w ]

le_larger : (a b : Small) → IsHalf a → IsHalf b → SmallLe a (most a b) × SmallLe b (most a b)
le_larger nan b v w = absurd v
le_larger (num a) nan v w = absurd w
le_larger (num a) (num b) v w = elim (Bool-cases (leb a b)) [
  | inl e ↦ rw e ((ground arith, omega arith), (omega arith, omega arith))
  | inr e ↦ rw e ((omega arith, omega arith), (ground arith, omega arith))
]

most-IsHalf : (a b : Small) → IsHalf a → IsHalf b → IsHalf (most a b)
most-IsHalf nan b v w = absurd v
most-IsHalf (num a) nan v w = absurd w
most-IsHalf (num a) (num b) v w = elim (Bool-cases (leb a b)) [ inl e ↦ rw e w | inr e ↦ rw e v ]

IsHalf-between : (a x b : Small) → SmallLe a x → SmallLe x b → IsHalf a → IsHalf b → IsHalf x
IsHalf-between nan x b h k v w = absurd v
IsHalf-between (num a) nan b h k v w = absurd h
IsHalf-between (num a) (num x) nan h k v w = absurd w
IsHalf-between (num a) (num x) (num b) h k v w = (omega arith, omega arith)

-- The difference of two halves is in range.
difference_halves :
    (a b : ℕ) → IsHalf (num a) → IsHalf (num b) → difference (num a) (num b) ≡ num (a + 1000 - b)
difference_halves a b v w =
    let above : leb b (a + 1000) ≡ true = ground arith in
    let below : leb (a + 1000 - b) 2000 ≡ true = ground arith in rw above (rw below refl)

sub_mono :
    (a b c : Small)
    → IsHalf a
    → IsHalf b
    → IsHalf c
    → SmallLe a b
    → SmallLe (difference a c) (difference b c)
sub_mono nan b c u v w h = absurd u
sub_mono (num a) nan c u v w h = absurd v
sub_mono (num a) (num b) nan u v w h = absurd w
sub_mono (num a) (num b) (num c) u v w h =
    rw (difference_halves a c u w, difference_halves b c v w) (omega arith, omega arith)

sub_anti :
    (a b c : Small)
    → IsHalf a
    → IsHalf b
    → IsHalf c
    → SmallLe a b
    → SmallLe (difference c b) (difference c a)
sub_anti nan b c u v w h = absurd u
sub_anti (num a) nan c u v w h = absurd v
sub_anti (num a) (num b) nan u v w h = absurd w
sub_anti (num a) (num b) (num c) u v w h =
    rw (difference_halves c a w u, difference_halves c b w v) (omega arith, omega arith)

sub_self : (a : Small) → IsHalf a → difference a a ≡ num 1000
sub_self nan v = absurd v
sub_self (num a) v = difference_halves a a v v ∙ ap num (omega arith)

span_le :
    (a b : Small)
    → IsHalf a
    → IsHalf b
    → SmallLe (difference a b) (most (difference a b) (num 1001))
span_le nan b v w = absurd v
span_le (num a) nan v w = absurd w
span_le (num a) (num b) v w =
    rw (difference_halves a b v w) (elim (Bool-cases (leb (a + 1000 - b) 1001)) [
      | inl e ↦ rw e (ground arith, omega arith)
      | inr e ↦ rw e (omega arith, omega arith)
    ])

span_IsPositive :
    (a b : Small) → IsHalf a → IsHalf b → IsPositive (most (difference a b) (num 1001))
span_IsPositive nan b v w = absurd v
span_IsPositive (num a) nan v w = absurd w
span_IsPositive (num a) (num b) v w =
    rw (difference_halves a b v w) (elim (Bool-cases (leb (a + 1000 - b) 1001)) [
      | inl e ↦ rw e (omega arith, omega arith)
      | inr e ↦ rw e (ground arith, omega arith)
    ])

within-num : (a : ℕ) → a ≤ 2000 → within a ≡ num a
within-num a h = let low : leb a 2000 ≡ true = ground arith in rw low refl

below-num : (a : ℕ) → a ≤ 1000 → below a ≡ num (1000 - a)
below-num a h = let low : leb a 1000 ≡ true = ground arith in rw low refl

over-nonneg :
    (a c : ℕ)
    → 1000 ≤ a
    → a ≤ 2000
    → 1000 < c
    → over (num a) (num c) ≡ num (1000 + (a - 1000) / (c - 1000))
over-nonneg a c h k m =
    let positive : leb c 1000 ≡ false = ground arith in
    let left : leb 1000 a ≡ true = ground arith in
    let right : leb 1000 c ≡ true = ground arith in
    let small = div-le_self (a - 1000) (c - 1000) in
    rw (positive, left, right) (within-num _ (omega arith))

over-negative :
    (a c : ℕ) → a < 1000 → 1000 < c → over (num a) (num c) ≡ num (1000 - (1000 - a) / (c - 1000))
over-negative a c h m =
    let positive : leb c 1000 ≡ false = ground arith in
    let left : leb 1000 a ≡ false = ground arith in
    let right : leb 1000 c ≡ true = ground arith in
    let small = div-le_self (1000 - a) (c - 1000) in
    rw (positive, left, right) (below-num _ (omega arith))

div_nonneg : (a c : Small) → IsPositive c → SmallLe (num 1000) a → SmallLe (num 1000) (over a c)
div_nonneg a nan v h = absurd v
div_nonneg nan (num c) v h = absurd h
div_nonneg (num a) (num c) v h =
    let small = div-le_self (a - 1000) (c - 1000) in
    rw (over-nonneg a c h.0 h.1 v.0) (omega arith, omega arith)

div_le_one : (a c : Small) → IsPositive c → SmallLe a c → SmallLe (over a c) (num 1001)
div_le_one a nan v h = absurd v
div_le_one nan (num c) v h = absurd h
div_le_one (num a) (num c) v h = elim (Bool-cases (leb 1000 a)) [
  | inl e ↦
      let small : (a - 1000) / (c - 1000) ≤ 1 = div-le_of_le-mul (c - 1000) (omega arith) in
      rw (over-nonneg a c (ground arith) (omega arith) v.0) (omega arith, omega arith)
  | inr e ↦ rw (over-negative a c (ground arith) v.0) (omega arith, omega arith)
]

abbrev literal : ℕ → Small
literal n = within (1000 + n)

literal-num : (n : ℕ) → n ≤ 100 → literal n ≡ num (1000 + n)
literal-num n h = within-num (1000 + n) (omega arith)

mul-share :
    (a k : ℕ)
    → 1000 ≤ a
    → a ≤ 1001
    → k ≤ 100
    → signed (λ x y. x * y) (num a) (literal k) ≡ num (1000 + (a - 1000) * k)
mul-share a k h h' m =
    let left : leb 1000 a ≡ true = ground arith in
    let right : leb 1000 (1000 + k) ≡ true = ground arith in
    let size : 1000 + k - 1000 ≡ k = omega arith in
    let small : (a - 1000) * k ≤ 1 * k = mul-le-mul_right k (omega arith) in
    rw (literal-num k m, left, right, size) (within-num _ (omega arith))

mul_mono :
    (a b : Small) (k : ℕ)
    → k ≤ 100
    → SmallLe (num 1000) a
    → SmallLe a b
    → SmallLe b (num 1001)
    → SmallLe (signed (λ x y. x * y) a (literal k)) (signed (λ x y. x * y) b (literal k))
mul_mono nan b k m h j g = absurd h
mul_mono (num a) nan k m h j g = absurd j
mul_mono (num a) (num b) k m h j g =
    let more : (a - 1000) * k ≤ (b - 1000) * k = mul-le-mul_right k (omega arith) in
    let small : (b - 1000) * k ≤ 1 * k = mul-le-mul_right k (omega arith) in
    rw (mul-share a k (omega arith) (omega arith) m, mul-share b k (omega arith) (omega arith) m)
      (omega arith, omega arith)

sub_literal : (a b : ℕ) → b ≤ a → a ≤ 100 → difference (literal a) (literal b) ≡ literal (a - b)
sub_literal a b h k =
    rw
      (
        literal-num a k,
        literal-num b (omega arith),
        literal-num (a - b) (omega arith),
        difference_halves (1000 + a) (1000 + b) (omega arith, omega arith)
            (omega arith, omega arith),
      )
      (ap num (omega arith))

small_laws : OrderLaws small_numbers
small_laws = record {
  Le = SmallLe;
  IsModerate = IsHalf;
  IsSpan = IsPositive;
  le_refl = le_refl;
  le_trans = le_trans;
  smaller_le = smaller_le;
  smaller_moderate = fewest-IsHalf;
  le_larger = le_larger;
  larger_moderate = most-IsHalf;
  moderate_between = IsHalf-between;
  sub_mono = sub_mono;
  sub_anti = sub_anti;
  sub_self = sub_self;
  span_le = span_le;
  span_IsSpan = span_IsPositive;
  div_nonneg = div_nonneg;
  div_le_one = div_le_one;
  mul_mono = mul_mono;
  zero_mul = λ k h. mul-share 1000 k (omega arith) (omega arith) h ∙ ap num (omega arith);
  one_mul = λ k h.
      mul-share 1001 k (omega arith) (omega arith) h ∙ ap num (omega arith) ∙ sym (literal-num k h);
  sub_literal = sub_literal;
  literal_mono =
      λ a b h k. rw (literal-num a (omega arith), literal-num b k) (omega arith, omega arith);
  literal_moderate = λ a h. rw (literal-num a h) (omega arith, omega arith);
  literal_IsSpan = λ a h k. rw (literal-num a k) (omega arith, omega arith);
}

-- 70, -37 and 75
abbrev prices : List Small
prices = num 1070 ∷ num 963 ∷ num 1075 ∷ []

frame_of-IsBetween_example :
    All
      (λ raw.
        SmallLe (num 1006) (y_at (frame_of nan prices) raw)
        × SmallLe (y_at (frame_of nan prices) raw) (num 1034))
      prices
    × ((index : ℕ)
        → index < 3
        → SmallLe (num 1000) (x_at (frame_of nan prices) index)
          × SmallLe (x_at (frame_of nan prices) index) (num 1100))
unfolding small_laws
frame_of-IsBetween_example =
    frame_of-IsBetween small_laws nan prices
      ((omega arith, omega arith), ((omega arith, omega arith), ((omega arith, omega arith), tt)))
      (omega arith)
