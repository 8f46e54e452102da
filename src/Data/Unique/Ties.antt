-- ===== src/Data/Unique/Ties.antt =====
-- Which of the rows of one event `uniqueChronological` keeps.
use push_and_pray.Prelude.{
  ◌≡◌, ◌⊎◌, inl, inr, arith, none, some, true, List, [], ◌∷◌, All, Any, Ordered, All-zip,
}
use push_and_pray.Js.Sort.{is_positive, sort}
use push_and_pray.Js.Sort.Laws.{InOrder, sort-InOrder}
use push_and_pray.Js.Eq.{Instant}
use push_and_pray.Types.{Observation}
use push_and_pray.Platform.{Dates}
use push_and_pray.Data.Unique.{minus, scheduled, happened, by_schedule, unique_chronological}
use push_and_pray.Data.Unique.Laws.{Earlier, NotLater, IsDated}
use push_and_pray.Data.Unique.Result.{InSchedule, scheduled-Ordered, unique_chronological-StandsFor}

Earlier-of_positive : (a b : Instant) → is_positive (minus b a) ≡ true → Earlier a b
unfolding minus
Earlier-of_positive none none h = cc
Earlier-of_positive none (some b) h = cc
Earlier-of_positive (some a) none h = cc
Earlier-of_positive (some a) (some b) h = ground arith

module _ ⦃d : Dates⦄ (Behind : Observation → Observation → Type 0) where
  -- Scheduled later, or for the same time and further behind.
  abbrev pub Follows : Observation → Observation → Type 0
  Follows x y =
      NotLater (scheduled x) (scheduled y) × (Earlier (scheduled x) (scheduled y) ⊎ Behind x y)

  Follows-Ordered :
      (xs : List Observation)
      → Ordered InSchedule xs
      → Ordered (InOrder by_schedule Behind) xs
      → Ordered Follows xs
  Follows-Ordered [] h k = tt
  Follows-Ordered (x ∷ xs) h k = (
    All-zip (InSchedule x) (InOrder by_schedule Behind x) (Follows x) xs
        (λ y le order. (
          le,
          elim order [
            | inl later ↦ inl (Earlier-of_positive (scheduled x) (scheduled y) later)
            | inr behind ↦ inr behind
          ],
        ))
        h.0 k.0,
    Follows-Ordered xs h.1 k.1,
  )

  -- Of the rows of one event, `uniqueChronological` keeps the one that was scheduled last, and of those
  -- that were scheduled for the same time the one furthest behind: if both dates of every row can be read,
  -- each row is in the result itself, or one of the same event is that was scheduled no earlier and,
  -- unless it was scheduled later, stands behind it.
  pub unique_chronological-Follows :
      (items : List Observation)
      → Ordered Behind items
      → All IsDated items
      → All
          (λ x.
            Any
              (λ y. (happened y ≡ happened x) × ((x ≡ y) ⊎ Follows x y))
              (unique_chronological items))
          items
  unique_chronological-Follows items behind v = unique_chronological-StandsFor Follows items (
      Follows-Ordered (sort by_schedule items) (scheduled-Ordered items v)
        (sort-InOrder by_schedule Behind items behind))
