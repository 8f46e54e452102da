-- ===== src/Data/Unique/Result.antt =====
-- The contract of `uniqueChronological`.
use push_and_pray.Prelude.{
  ◌≡◌, refl, sym, inl, inr, List, [], ◌∷◌, map, All, Any, Ordered, All-imp, All-zip, Any-imp, subst,
  ◌∙◌, ◌⊎◌,
}
use push_and_pray.Js.Eq.{Instant, instant_key}
use push_and_pray.Js.Sort.{sort}
use push_and_pray.Js.Sort.Laws.{sort-All, sort-All_inv, sort-Any, sort-Ordered_symm, sort-Ordered}
use push_and_pray.Js.KeyMap.{KeyMap, set, set_all, values}
use push_and_pray.Prelude.Int.{◌≤ℤ◌}
use push_and_pray.Types.{Observation}
use push_and_pray.Platform.{Dates}
use push_and_pray.Data.Unique.{
  scheduled, happened, by_schedule, by_event, dated, unique_chronological,
}
use push_and_pray.Data.Unique.Laws.{
  Earlier, NotLater, milliseconds, minus-agree, NotLater-refl, NotLater-of_le, Earlier-of_le,
  IsDated, Replaces, Keyed, set-Keyed, set-All, set-Any, set-Any_keep, Apart, set-Apart,
}

module _ ⦃d : Dates⦄ where
  abbrev Table : Type 0
  Table = KeyMap Instant Observation

  set_all-All :
      (P : Observation → Type 0) (xs : List Observation) (m : Table)
      → All P xs
      → All P (values m)
      → All P (values (set_all (map dated xs) m))
  unfolding set_all
  set_all-All P [] m h k = k
  set_all-All P (x ∷ xs) m h k = set_all-All P xs (set (happened x) x m) h.1 (set-All P x m h.0 k)

  set_all-Apart :
      (xs : List Observation) (m : Table)
      → Keyed m
      → Ordered Apart (values m)
      → Ordered Apart (values (set_all (map dated xs) m))
  unfolding set_all
  set_all-Apart [] m k h = h
  set_all-Apart (x ∷ xs) m k h =
      set_all-Apart xs (set (happened x) x m) (set-Keyed x m k) (set-Apart x m k h)

  -- `y` is `x`, or another row of the same event to which the relation leads from `x`.
  abbrev pub StandsFor : (Observation → Observation → Type 0) → Observation → Observation → Type 0
  StandsFor Q x y = (happened y ≡ happened x) × ((x ≡ y) ⊎ Q x y)

  -- What stands for `z` is only replaced by what stands for `z`.
  set_all-Any_keep :
      (Q : Observation → Observation → Type 0) (z : Observation) (xs : List Observation) (m : Table)
      → All (Q z) xs
      → Keyed m
      → Any (StandsFor Q z) (values m)
      → Any (StandsFor Q z) (values (set_all (map dated xs) m))
  unfolding set_all
  set_all-Any_keep Q z [] m h k any = any
  set_all-Any_keep Q z (x ∷ xs) m h k any =
      set_all-Any_keep Q z xs (set (happened x) x m) h.1 (set-Keyed x m k)
        (set-Any_keep (StandsFor Q z) x m (λ y same p. (sym same ∙ p.0, inr h.0)) k any)

  pub set_all-covers :
      (Q : Observation → Observation → Type 0) (xs : List Observation) (m : Table)
      → Ordered Q xs
      → Keyed m
      → All (λ x. Any (StandsFor Q x) (values (set_all (map dated xs) m))) xs
  unfolding set_all
  set_all-covers Q [] m o k = tt
  set_all-covers Q (x ∷ xs) m o k = (
    set_all-Any_keep Q x xs (set (happened x) x m) o.0 (set-Keyed x m k)
        (set-Any (StandsFor Q x) x m (refl, inl refl)),
    set_all-covers Q xs (set (happened x) x m) o.1 (set-Keyed x m k),
  )

  abbrev pub InSchedule : Observation → Observation → Type 0
  InSchedule x y = NotLater (scheduled x) (scheduled y)

  Ordered-strengthen :
      (R S T : Observation → Observation → Type 0) (xs : List Observation)
      → ((x y : Observation) → IsDated x → IsDated y → R x y → S x y → T x y)
      → All IsDated xs
      → Ordered R xs
      → Ordered S xs
      → Ordered T xs
  Ordered-strengthen R S T [] f v r s = tt
  Ordered-strengthen R S T (x ∷ xs) f v r s = (
    All-zip IsDated (λ y. R x y × S x y) (T x) xs (λ y vy rs. f x y v.0 vy rs.0 rs.1) v.1
        (All-zip (R x) (S x) (λ y. R x y × S x y) xs (λ y a b. (a, b)) r.0 s.0),
    Ordered-strengthen R S T xs f v.1 r.1 s.1,
  )

  abbrev AtMost : (Observation → Instant) → Observation → Observation → Type 0
  AtMost key x y = milliseconds (key x) ≤ℤ milliseconds (key y)

  pub scheduled-Ordered :
      (items : List Observation) → All IsDated items → Ordered InSchedule (sort by_schedule items)
  scheduled-Ordered items v =
      let sorted : Ordered (AtMost scheduled) (sort by_schedule items) =
        sort-Ordered by_schedule (λ x. milliseconds (scheduled x)) IsDated
          (λ x y vx vy. minus-agree (scheduled x) (scheduled y) vx.0 vy.0) items v in
      Ordered-strengthen (AtMost scheduled) (AtMost scheduled) InSchedule (sort by_schedule items)
        (λ x y vx vy le _. NotLater-of_le (scheduled x) (scheduled y) vx.0 vy.0 le)
        (sort-All by_schedule IsDated items v) sorted sorted

  abbrev table_of : List Observation → Table
  table_of items = set_all (map dated (sort by_schedule items)) []

  values-All :
      (P : Observation → Type 0) (items : List Observation)
      → All P items
      → All P (values (table_of items))
  unfolding values
  values-All P items h =
      set_all-All P (sort by_schedule items) [] (sort-All by_schedule P items h) tt

  -- If both dates of every observation can be read, the event times of the result of
  -- `uniqueChronological` strictly ascend, so that none occurs twice.
  pub unique_chronological-Ordered :
      (items : List Observation)
      → All IsDated items
      → Ordered (λ x y. Earlier (happened x) (happened y)) (unique_chronological items)
  unfolding unique_chronological values
  unique_chronological-Ordered items v =
      let vs = values-All IsDated items v in
      let sorted : Ordered (AtMost happened) (sort by_event (values (table_of items))) =
        sort-Ordered by_event (λ x. milliseconds (happened x)) IsDated
          (λ x y vx vy. minus-agree (happened x) (happened y) vx.1 vy.1) _ vs in
      let apart : Ordered Apart (sort by_event (values (table_of items))) =
        sort-Ordered_symm by_event Apart (λ x y ne e. ne (sym e)) (values (table_of items))
          (set_all-Apart (sort by_schedule items) [] tt tt) in
      Ordered-strengthen (AtMost happened) Apart (λ x y. Earlier (happened x) (happened y)) _
        (λ x y vx vy le ne. Earlier-of_le (happened x) (happened y) vx.1 vy.1 le ne)
        (sort-All by_event IsDated _ vs) sorted apart

  -- Whatever relation holds from each row to those behind it, once the rows are sorted by their
  -- schedule, leads from each row to the one that stands for it.
  pub unique_chronological-StandsFor :
      (Q : Observation → Observation → Type 0) (items : List Observation)
      → Ordered Q (sort by_schedule items)
      → All (λ x. Any (StandsFor Q x) (unique_chronological items)) items
  unfolding unique_chronological
  unique_chronological-StandsFor Q items ordered =
      let found = set_all-covers Q (sort by_schedule items) [] ordered tt in
      All-imp _ _ items (λ x any. sort-Any by_event (StandsFor Q x) (values (table_of items)) any)
        (sort-All_inv by_schedule _ items found)

  -- If both dates of every observation can be read, each observation that `uniqueChronological`
  -- is given has one in the result with the same event time that was scheduled no earlier.
  pub unique_chronological-covers :
      (items : List Observation)
      → All IsDated items
      → All (λ x. Any (Replaces x) (unique_chronological items)) items
  unique_chronological-covers items v =
      All-zip _ _ _ items
        (λ x any vx.
          Any-imp (StandsFor InSchedule x) (Replaces x) (unique_chronological items)
            (λ y stands. (
              stands.0,
              elim stands.1 [
                | inl same ↦ subst (λ z. InSchedule x z) same (NotLater-refl (scheduled x) vx.0)
                | inr later ↦ later
              ],
            ))
            any)
        (unique_chronological-StandsFor InSchedule items (scheduled-Ordered items v)) v

  -- What holds of every observation of the input holds of the result, whatever the dates are.
  pub unique_chronological-All :
      (P : Observation → Type 0) (items : List Observation)
      → All P items
      → All P (unique_chronological items)
  unfolding unique_chronological
  unique_chronological-All P items h =
      sort-All by_event P (values (table_of items)) (values-All P items h)

  members : (items : List Observation) → All (λ x. Any (λ y. y ≡ x) items) items
  members [] = tt
  members (x ∷ xs) = (inl refl, All-imp _ _ xs (λ y any. inr any) (members xs))

  -- Every observation of the result of `uniqueChronological` stands in the input.
  pub unique_chronological-subset :
      (items : List Observation) → All (λ x. Any (λ y. y ≡ x) items) (unique_chronological items)
  unique_chronological-subset items = unique_chronological-All _ items (members items)
