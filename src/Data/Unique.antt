-- ===== src/Data/Unique.antt =====
-- `uniqueChronological`: one observation for each event time, in the order of event times.
pub mod Laws
pub mod Result
pub mod Ties
use push_and_pray.Prelude.{Option, none, some, List, [], ◌∷◌, map}
use push_and_pray.Prelude.Int.{ℤ, ◌-ℤ◌}
use push_and_pray.Js.Eq.{Instant, instant_key}
use push_and_pray.Js.Sort.{sort}
use push_and_pray.Js.KeyMap.{set_all, values}
use push_and_pray.Types.{Observation}
use push_and_pray.Platform.{Dates}
use push_and_pray.Format.{event_time}

-- `a - b` on numbers of which either may be NaN.
unfoldable pub minus : Instant → Instant → Instant
unfolding ◌-ℤ◌
minus (some a) (some b) = some (a -ℤ b)
minus _ _ = none

module _ ⦃d : Dates⦄ where
  -- `Date.parse(item.scheduled_for)`
  unfoldable pub scheduled : Observation → Instant
  scheduled item = d.parse_date item.scheduled_for

  -- `Date.parse(eventTime(item))`
  unfoldable pub happened : Observation → Instant
  unfolding event_time
  happened item = d.parse_date (event_time item)

  abbrev pub by_schedule : Observation → Observation → Instant
  by_schedule a b = minus (scheduled a) (scheduled b)

  abbrev pub by_event : Observation → Observation → Instant
  by_event a b = minus (happened a) (happened b)

  abbrev pub dated : Observation → Instant × Observation
  dated item = (happened item, item)

  unfoldable pub unique_chronological : List Observation → List Observation
  unfolding sort set_all values
  unique_chronological items =
      sort by_event (values (set_all (map dated (sort by_schedule items)) []))
