-- ===== src/Data/Visible.antt =====
-- `filterVisible`: the selected instruments' observations within the range before the newest one.
pub mod Laws
pub mod Cases
use push_and_pray.Prelude.{
  ℕ, ◌*◌, Bool, true, false, Option, none, some, List, [], ◌∷◌, map, if◌then◌else◌, select,
}
use push_and_pray.Prelude.Int.{ℤ, pos, ◌-ℤ◌, leb_ℤ}
use push_and_pray.Prelude.Text.{Text}
use push_and_pray.Js.Eq.{Instant, text_key}
use push_and_pray.Js.KeyMap.{has}
use push_and_pray.Types.{
  Observation, RangeValue, days_1, days_7, days_30, days_90, days_180, days_365, all,
}
use push_and_pray.Platform.{Dates}
use push_and_pray.Data.Unique.{happened}

-- `Number(range)`; `none` for "all".
unfoldable pub range_days : RangeValue → Option ℕ
range_days days_1 = some 1
range_days days_7 = some 7
range_days days_30 = some 30
range_days days_90 = some 90
range_days days_180 = some 180
range_days days_365 = some 365
range_days all = none

-- `Math.max` of two numbers, NaN if one of them is.
unfoldable pub max_instant : Instant → Instant → Instant
max_instant (some a) (some b) = some (if leb_ℤ a b then b else a)
max_instant _ _ = none

-- `Math.max(first, ...rest)`
unfoldable pub newest_of : Instant → List Instant → Instant
newest_of best [] = best
newest_of best (t ∷ ts) = newest_of (max_instant best t) ts

-- `time >= newest - days * 86_400_000`, which NaN fails.
unfoldable pub in_range : ℕ → Instant → Instant → Bool
in_range days (some newest) (some time) = leb_ℤ (newest -ℤ pos (days * 86400000)) time
in_range days _ _ = false

module _ ⦃d : Dates⦄ where
  pub cut : Option ℕ → List Observation → List Observation
  cut none matching = matching
  cut (some days) [] = []
  cut (some days) (item ∷ rest) =
      select (λ x. in_range days (newest_of (happened item) (map happened rest)) (happened x))
        (item ∷ rest)

  unfoldable pub filter_visible : List Observation → List Text → RangeValue → List Observation
  unfolding cut range_days newest_of max_instant in_range has
  filter_visible observations selected range =
      cut (range_days range) (select (λ item. has selected item.instrument_code) observations)
