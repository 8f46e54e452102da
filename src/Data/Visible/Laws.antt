-- ===== src/Data/Visible/Laws.antt =====
-- Which observations `filterVisible` keeps.
use push_and_pray.Prelude.{
  ℕ, ◌*◌, ◌≡◌, refl, sym, ap, ◌∙◌, ◌⊎◌, inl, inr, Bool, true, ◌&&◌, Option, none, some, List, [],
  ◌∷◌, map, arith, select, All, Any,
}
use push_and_pray.Prelude.Int.{pos, -ℤ_parts}
use push_and_pray.Prelude.Text.{Text}
use push_and_pray.Js.Eq.{Instant, text_key}
use push_and_pray.Js.KeyMap.{has}
use push_and_pray.Types.{Observation, RangeValue}
use push_and_pray.Platform.{Dates}
use push_and_pray.Data.Unique.{happened}
use push_and_pray.Data.Unique.Laws.{IsValidInstant}
use push_and_pray.Data.Visible.{range_days, max_instant, newest_of, in_range, cut, filter_visible}

-- `time` lies within the days before every one of the instants.
unfoldable pub in_range_of_all : ℕ → List Instant → Instant → Bool
in_range_of_all days [] time = true
in_range_of_all days (t ∷ ts) time = in_range days t time && in_range_of_all days ts time

in_range-max_instant :
    (days : ℕ) (a b time : Instant)
    → in_range days (max_instant a b) time ≡ (in_range days a time && in_range days b time)
unfolding in_range max_instant
in_range-max_instant days none b time = refl
in_range-max_instant days (some a) none none = refl
in_range-max_instant days (some a) none (some t) = ground arith
in_range-max_instant days (some a) (some b) none = ground arith
in_range-max_instant days (some a) (some b) (some t) =
    ground (arith, -ℤ_parts a (pos (days * 86400000)), -ℤ_parts b (pos (days * 86400000)))

pub in_range-newest_of :
    (days : ℕ) (best : Instant) (ts : List Instant) (time : Instant)
    → in_range days (newest_of best ts) time
      ≡ (in_range days best time && in_range_of_all days ts time)
unfolding newest_of in_range_of_all
in_range-newest_of days best [] time = ground arith
in_range-newest_of days best (t ∷ ts) time = ground (
  arith,
  in_range-newest_of days (max_instant best t) ts time,
  in_range-max_instant days best t time,
)

max_instant-cases :
    (a b : Instant)
    → IsValidInstant a
    → IsValidInstant b
    → IsValidInstant (max_instant a b) × ((max_instant a b ≡ a) ⊎ (max_instant a b ≡ b))
unfolding max_instant
max_instant-cases none b v w = elim v [ ]
max_instant-cases (some a) none v w = elim w [ ]
max_instant-cases (some a) (some b) v w = (tt, ground arith)

pub newest_of-Any :
    (best : Instant) (ts : List Instant)
    → IsValidInstant best
    → All IsValidInstant ts
    → IsValidInstant (newest_of best ts) × Any (λ t. t ≡ newest_of best ts) (best ∷ ts)
unfolding newest_of
newest_of-Any best [] v vs = (v, inl refl)
newest_of-Any best (t ∷ ts) v vs =
    let (valid_max, is_max) = max_instant-cases best t v vs.0 in
    let (valid, found) = newest_of-Any (max_instant best t) ts valid_max vs.1 in
    (
      valid,
      elim found [
        | inl h ↦ elim is_max [ inl e ↦ inl (sym e ∙ h) | inr e ↦ inr (inl (sym e ∙ h)) ]
        | inr h ↦ inr (inr h)
      ],
    )

pub in_range_refl : (days : ℕ) (t : Instant) → IsValidInstant t → in_range days t t ≡ true
unfolding in_range
in_range_refl days none v = elim v [ ]
in_range_refl days (some t) v = ground (arith, -ℤ_parts t (pos (days * 86400000)))

module _ ⦃d : Dates⦄ where
  -- The observations of the selected instruments.
  abbrev pub matching : List Observation → List Text → List Observation
  matching observations selected = select (λ item. has selected item.instrument_code) observations

  -- With a range, what is kept lies within it before every matching observation.
  abbrev pub keeps : Option ℕ → List Observation → Observation → Bool
  keeps none items x = true
  keeps (some days) items x = in_range_of_all days (map happened items) (happened x)

  select_congr :
      (p q : Observation → Bool) (xs : List Observation)
      → ((x : Observation) → p x ≡ q x)
      → select p xs ≡ select q xs
  select_congr p q [] h = refl
  select_congr p q (x ∷ xs) h = ground (arith, h x, select_congr p q xs h)

  select-true : (xs : List Observation) → select (λ x. true) xs ≡ xs
  select-true [] = refl
  select-true (x ∷ xs) = ap (x ∷◌) (select-true xs)

  pub cut-eq-select :
      (range : Option ℕ) (items : List Observation)
      → cut range items ≡ select (keeps range items) items
  unfolding cut in_range_of_all
  cut-eq-select none items = sym (select-true items)
  cut-eq-select (some days) [] = refl
  cut-eq-select (some days) (item ∷ rest) =
      select_congr _ _ (item ∷ rest)
        λ x. in_range-newest_of days (happened item) (map happened rest) (happened x)

  -- `filterVisible` returns, in their order, the observations of selected instruments that are at
  -- most the range older than every observation of a selected instrument; with the range "all", all
  -- of them. An instant that cannot be read is in range of none, and none is in range of it.
  pub filter_visible-eq-select :
      (observations : List Observation) (selected : List Text) (range : RangeValue)
      → filter_visible observations selected range
        ≡ select
            (keeps (range_days range) (matching observations selected))
            (matching observations selected)
  unfolding filter_visible
  filter_visible-eq-select observations selected range =
      cut-eq-select (range_days range) (matching observations selected)
