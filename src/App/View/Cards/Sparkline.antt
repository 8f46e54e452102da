-- ===== src/App/View/Cards/Sparkline.antt =====
-- Where the corners of a card's sparkline lie.
use push_and_pray.Prelude.{
  ℕ, ◌-◌, ◌≤◌, ◌<◌, ◌≡◌, List, [], ◌∷◌, arith, length, All, ◌==◌, Bool-cases, inl, inr, subst,
  All-zip,
}
use push_and_pray.Platform.{Number}
use push_and_pray.App.View.Cards.{Frame, least, greatest, x_at, y_at, frame_of}

-- What the drawing relies on of JavaScript's numbers, with overflow and NaN. `Le a b` is `a <= b`,
-- which is false where one of them is NaN; `IsModerate a` says that a is finite and at most half the
-- largest number in size, so that the difference of two such numbers is finite; `IsSpan c` says
-- that c is finite and positive. Rounding to nearest keeps the order of exact results, and whole
-- numbers up to 100 have no rounding.
pub record OrderLaws {W : Type 0} (n : Number W) : Type 1 where
  pub Le : W → W → Type 0
  pub IsModerate : W → Type 0
  pub IsSpan : W → Type 0
  pub le_refl : (a : W) → IsModerate a → Le a a
  pub le_trans : (a b c : W) → Le a b → Le b c → Le a c
  pub smaller_le :
      (a b : W) → IsModerate a → IsModerate b → Le (n.smaller a b) a × Le (n.smaller a b) b
  pub smaller_moderate : (a b : W) → IsModerate a → IsModerate b → IsModerate (n.smaller a b)
  pub le_larger :
      (a b : W) → IsModerate a → IsModerate b → Le a (n.larger a b) × Le b (n.larger a b)
  pub larger_moderate : (a b : W) → IsModerate a → IsModerate b → IsModerate (n.larger a b)
  pub moderate_between : (a x b : W) → Le a x → Le x b → IsModerate a → IsModerate b → IsModerate x
  pub sub_mono :
      (a b c : W) → IsModerate a → IsModerate b → IsModerate c → Le a b → Le (n.sub a c) (n.sub b c)
  pub sub_anti :
      (a b c : W) → IsModerate a → IsModerate b → IsModerate c → Le a b → Le (n.sub c b) (n.sub c a)
  pub sub_self : (a : W) → IsModerate a → n.sub a a ≡ n.literal 0
  pub span_le :
      (a b : W) → IsModerate a → IsModerate b → Le (n.sub a b) (n.larger (n.sub a b) n.thousandth)
  pub span_IsSpan :
      (a b : W) → IsModerate a → IsModerate b → IsSpan (n.larger (n.sub a b) n.thousandth)
  pub div_nonneg : (a c : W) → IsSpan c → Le (n.literal 0) a → Le (n.literal 0) (n.div a c)
  pub div_le_one : (a c : W) → IsSpan c → Le a c → Le (n.div a c) (n.literal 1)
  pub mul_mono :
      (a b : W) (k : ℕ)
      → k ≤ 100
      → Le (n.literal 0) a
      → Le a b
      → Le b (n.literal 1)
      → Le (n.mul a (n.literal k)) (n.mul b (n.literal k))
  pub zero_mul : (k : ℕ) → k ≤ 100 → n.mul (n.literal 0) (n.literal k) ≡ n.literal 0
  pub one_mul : (k : ℕ) → k ≤ 100 → n.mul (n.literal 1) (n.literal k) ≡ n.literal k
  pub sub_literal :
      (a b : ℕ) → b ≤ a → a ≤ 100 → n.sub (n.literal a) (n.literal b) ≡ n.literal (a - b)
  pub literal_mono : (a b : ℕ) → a ≤ b → b ≤ 100 → Le (n.literal a) (n.literal b)
  pub literal_moderate : (a : ℕ) → a ≤ 100 → IsModerate (n.literal a)
  pub literal_IsSpan : (a : ℕ) → 0 < a → a ≤ 100 → IsSpan (n.literal a)

module _ {W : Type 0} ⦃n : Number W⦄ (laws : OrderLaws n) where
  open laws use {Le, IsModerate, IsSpan}

  least_le :
      (best : W) (xs : List W)
      → IsModerate best
      → All IsModerate xs
      → IsModerate (least best xs) × Le (least best xs) best × All (Le (least best xs)) xs
  unfolding least
  least_le best [] v vs = (v, laws.le_refl best v, tt)
  least_le best (x ∷ xs) v vs =
      let (ok, down, rest) =
        least_le (n.smaller best x) xs (laws.smaller_moderate best x v vs.0) vs.1 in
      let (left, right) = laws.smaller_le best x v vs.0 in
      (ok, laws.le_trans _ _ _ down left, (laws.le_trans _ _ _ down right, rest))

  le_greatest :
      (best : W) (xs : List W)
      → IsModerate best
      → All IsModerate xs
      → IsModerate (greatest best xs)
        × Le best (greatest best xs)
        × All (λ x. Le x (greatest best xs)) xs
  unfolding greatest
  le_greatest best [] v vs = (v, laws.le_refl best v, tt)
  le_greatest best (x ∷ xs) v vs =
      let (ok, up, rest) =
        le_greatest (n.larger best x) xs (laws.larger_moderate best x v vs.0) vs.1 in
      let (left, right) = laws.le_larger best x v vs.0 in
      (ok, laws.le_trans _ _ _ left up, (laws.le_trans _ _ _ right up, rest))

  abbrev pub IsBetween : ℕ → ℕ → W → Type 0
  IsBetween low high x = Le (n.literal low) x × Le x (n.literal high)

  -- A share of at most 1, times a whole number.
  scaled : (q : W) (k : ℕ) → k ≤ 100 → IsBetween 0 1 q → IsBetween 0 k (n.mul q (n.literal k))
  scaled q k h (low, high) = (
    subst (λ z. Le z (n.mul q (n.literal k))) (laws.zero_mul k h)
        (laws.mul_mono (n.literal 0) q k h (laws.le_refl _ (laws.literal_moderate 0 (omega arith)))
          low high),
    subst (λ z. Le (n.mul q (n.literal k)) z) (laws.one_mul k h)
        (laws.mul_mono q (n.literal 1) k h low high
          (laws.le_refl _ (laws.literal_moderate 1 (omega arith)))),
  )

  y_at-IsBetween :
      (low high raw : W) (count : ℕ)
      → IsModerate low
      → IsModerate high
      → Le low raw
      → Le raw high
      → IsBetween 6 34 (
          y_at
            (record { count = count; min = low; span = n.larger (n.sub high low) n.thousandth })
            raw)
  unfolding y_at
  y_at-IsBetween low high raw count v w above below =
      let span = n.larger (n.sub high low) n.thousandth in
      let wide = laws.span_IsSpan high low w v in
      let moderate = laws.moderate_between low raw high above below v w in
      let nonneg : Le (n.literal 0) (n.sub raw low) =
        subst (λ z. Le z (n.sub raw low)) (laws.sub_self low v)
          (laws.sub_mono low raw low v moderate v above) in
      let fits : Le (n.sub raw low) span =
        laws.le_trans _ _ _ (laws.sub_mono raw high low moderate w v below)
          (laws.span_le high low w v) in
      let (zero_le, le_28) =
        scaled (n.div (n.sub raw low) span) 28 (omega arith)
          (laws.div_nonneg _ _ wide nonneg, laws.div_le_one _ _ wide fits) in
      let whole : (k : ℕ) → k ≤ 100 → IsModerate (n.literal k) = laws.literal_moderate in
      let share = n.mul (n.div (n.sub raw low) span) (n.literal 28) in
      let share_moderate =
        laws.moderate_between _ share _ zero_le le_28 (whole 0 (omega arith))
          (whole 28 (omega arith)) in
      let y = n.sub (n.literal 34) (n.mul (n.div (n.sub raw low) span) (n.literal 28)) in
      (
        subst (λ z. Le z y) (laws.sub_literal 34 28 (omega arith) (omega arith))
            (laws.sub_anti share (n.literal 28) (n.literal 34) share_moderate
              (whole 28 (omega arith)) (whole 34 (omega arith)) le_28),
        subst (λ z. Le y z) (laws.sub_literal 34 0 (omega arith) (omega arith))
            (laws.sub_anti (n.literal 0) share (n.literal 34) (whole 0 (omega arith)) share_moderate
              (whole 34 (omega arith)) zero_le),
      )

  x_at-IsBetween :
      (f : Frame W) (index : ℕ) → index < f.count → f.count ≤ 100 → IsBetween 0 100 (x_at f index)
  unfolding x_at
  x_at-IsBetween f index inside few = elim (Bool-cases (f.count == 1)) [
    | inl e ↦ rw e (
      laws.literal_mono 0 50 (omega arith) (omega arith),
      laws.literal_mono 50 100 (omega arith) (omega arith),
    )
    | inr e ↦
        let wide = laws.literal_IsSpan (f.count - 1) (ground arith) (omega arith) in
        rw e (
          scaled _ 100 (omega arith) (
            laws.div_nonneg _ _ wide (laws.literal_mono 0 index (omega arith) (omega arith)),
            laws.div_le_one _ _ wide
                (laws.literal_mono index (f.count - 1) (omega arith) (omega arith)),
          ))
  ]

  -- Where the arithmetic has the properties of JavaScript's numbers that `OrderLaws` names, and for at most
  -- a hundred prices (the card draws twenty), each finite and at most half the largest number in size, every
  -- corner of the sparkline lies within the view box: from 0 to 100 across and from 6 to 34 down.
  pub frame_of-IsBetween :
      (otherwise : W) (raws : List W)
      → All IsModerate raws
      → length raws ≤ 100
      → All (λ raw. IsBetween 6 34 (y_at (frame_of otherwise raws) raw)) raws
        × ((index : ℕ)
            → index < length raws
            → IsBetween 0 100 (x_at (frame_of otherwise raws) index))
  unfolding frame_of
  frame_of-IsBetween otherwise [] v few = (tt, λ index inside. absurd (omega arith))
  frame_of-IsBetween otherwise (x ∷ xs) v few =
      let (ok, down, rest) = least_le x xs v.0 v.1 in
      let (ok', up, rest') = le_greatest x xs v.0 v.1 in
      (
        (
          y_at-IsBetween _ _ x _ ok ok' down up,
          All-zip _ _ _ xs (λ raw above below. y_at-IsBetween _ _ raw _ ok ok' above below) rest
              rest',
        ),
        λ index inside. x_at-IsBetween (frame_of otherwise (x ∷ xs)) index inside few,
      )
