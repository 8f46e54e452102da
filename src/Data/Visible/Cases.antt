-- ===== src/Data/Visible/Cases.antt =====
-- What `filterVisible` returns when a date cannot be read, and when all can.
use push_and_pray.Prelude.{
  ℕ, ◌≡◌, refl, sym, ◌∙◌, ◌≢◌, inl, inr, Bool, true, false, Option, none, some, List, [], ◌∷◌, map,
  arith, Bool-cases, select, All, Any, Any-imp,
}
use push_and_pray.Prelude.Text.{Text}
use push_and_pray.Js.Eq.{Instant, text_key}
use push_and_pray.Types.{Observation, RangeValue, all}
use push_and_pray.Platform.{Dates}
use push_and_pray.Data.Unique.{happened}
use push_and_pray.Data.Unique.Laws.{IsValidInstant}
use push_and_pray.Data.Visible.{range_days, newest_of, in_range, cut, filter_visible}
use push_and_pray.Data.Visible.Laws.{
  in_range_of_all, in_range-newest_of, newest_of-Any, in_range_refl, keeps, matching, cut-eq-select,
  filter_visible-eq-select,
}

module _ ⦃d : Dates⦄ where
  in_range_of_all-invalid :
      (days : ℕ) (ts : List Instant) (time : Instant)
      → Any (λ t. t ≡ none) ts
      → in_range_of_all days ts time ≡ false
  unfolding in_range_of_all in_range
  in_range_of_all-invalid days [] time h = elim h [ ]
  in_range_of_all-invalid days (t ∷ ts) time (inl h) = rw h refl
  in_range_of_all-invalid days (t ∷ ts) time (inr h) =
      ground (arith, in_range_of_all-invalid days ts time h)

  select-false :
      (p : Observation → Bool) (xs : List Observation)
      → ((x : Observation) → p x ≡ false)
      → select p xs ≡ []
  select-false p [] h = refl
  select-false p (x ∷ xs) h = ground (arith, h x, select-false p xs h)

  Any-happened :
      (P : Instant → Type 0) (xs : List Observation)
      → Any (λ x. P (happened x)) xs
      → Any P (map happened xs)
  Any-happened P [] h = h
  Any-happened P (x ∷ xs) (inl h) = inl h
  Any-happened P (x ∷ xs) (inr h) = inr (Any-happened P xs h)

  Any-happened_inv :
      (P : Instant → Type 0) (xs : List Observation)
      → Any P (map happened xs)
      → Any (λ x. P (happened x)) xs
  Any-happened_inv P [] h = h
  Any-happened_inv P (x ∷ xs) (inl h) = inl h
  Any-happened_inv P (x ∷ xs) (inr h) = inr (Any-happened_inv P xs h)

  All-happened :
      (xs : List Observation)
      → All (λ x. IsValidInstant (happened x)) xs
      → All IsValidInstant (map happened xs)
  All-happened [] h = tt
  All-happened (x ∷ xs) h = (h.0, All-happened xs h.1)

  -- One observation of a selected instrument whose event time cannot be read hides all of them
  -- under every range but "all".
  pub filter_visible-invalid :
      (observations : List Observation) (selected : List Text) (range : RangeValue)
      → range ≢ all
      → Any (λ x. happened x ≡ none) (matching observations selected)
      → filter_visible observations selected range ≡ []
  unfolding range_days
  filter_visible-invalid observations selected range finite bad =
      filter_visible-eq-select observations selected range
      ∙ select-false _ (matching observations selected) (hidden range finite)
    where
      some_range :
          (days : ℕ) (x : Observation)
          → keeps (some days) (matching observations selected) x ≡ false
      some_range days x =
          in_range_of_all-invalid days _ (happened x)
            (Any-happened (λ t. t ≡ none) (matching observations selected) bad)

      hidden :
          (r : RangeValue)
          → r ≢ all
          → (x : Observation) → keeps (range_days r) (matching observations selected) x ≡ false
      hidden RangeValue.days_1 _ = some_range 1
      hidden RangeValue.days_7 _ = some_range 7
      hidden RangeValue.days_30 _ = some_range 30
      hidden RangeValue.days_90 _ = some_range 90
      hidden RangeValue.days_180 _ = some_range 180
      hidden RangeValue.days_365 _ = some_range 365
      hidden all ne = absurd (ne refl)

  Any-select :
      (p : Observation → Bool) (P : Observation → Type 0) (xs : List Observation)
      → Any (λ x. P x × (p x ≡ true)) xs
      → Any P (select p xs)
  Any-select p P [] h = h
  Any-select p P (x ∷ xs) (inl h) = rw h.1 (inl h.0)
  Any-select p P (x ∷ xs) (inr h) = elim (Bool-cases (p x)) [
    | inl e ↦ rw e (inr (Any-select p P xs h))
    | inr e ↦ rw e (Any-select p P xs h)
  ]

  keeps_newest :
      (days : ℕ) (item : Observation) (rest : List Observation)
      → All (λ x. IsValidInstant (happened x)) (item ∷ rest)
      → Any (λ x. Unit × (keeps (some days) (item ∷ rest) x ≡ true)) (item ∷ rest)
  unfolding in_range_of_all in_range
  keeps_newest days item rest v =
      let (valid, found) =
        newest_of-Any (happened item) (map happened rest) v.0 (All-happened rest v.1) in
      Any-imp _ _ (item ∷ rest)
        (λ x same. (
          tt,
          sym (in_range-newest_of days (happened item) (map happened rest) (happened x))
              ∙ (rw same (in_range_refl days _ valid)),
        ))
        (Any-happened_inv (λ t. t ≡ newest_of (happened item) (map happened rest)) (item ∷ rest)
          found)

  select-nonempty :
      (p : Observation → Bool) (xs : List Observation)
      → Any (λ x. Unit × (p x ≡ true)) xs
      → select p xs ≢ []
  select-nonempty p xs any none_left =
      let kept = Any-select p (λ _. Unit) xs any in rw none_left at kept

  cut_nonempty :
      (range : Option ℕ) (items : List Observation)
      → All (λ x. IsValidInstant (happened x)) items
      → items ≢ []
      → cut range items ≢ []
  cut_nonempty none items v ne = unfold cut in ne
  cut_nonempty (some days) [] v ne = absurd (ne refl)
  cut_nonempty (some days) (item ∷ rest) v ne =
      rw (cut-eq-select (some days) (item ∷ rest))
        (select-nonempty _ (item ∷ rest) (keeps_newest days item rest v))

  -- No range hides everything: where all event times of the selected instruments can be read and
  -- there are observations of them, at least one is visible.
  pub filter_visible_nonempty :
      (observations : List Observation) (selected : List Text) (range : RangeValue)
      → All (λ x. IsValidInstant (happened x)) (matching observations selected)
      → matching observations selected ≢ []
      → filter_visible observations selected range ≢ []
  unfolding filter_visible
  filter_visible_nonempty observations selected range v ne =
      cut_nonempty (range_days range) (matching observations selected) v ne
