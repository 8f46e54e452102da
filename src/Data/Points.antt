-- ===== src/Data/Points.antt =====
-- `toSeriesPoints` and `rollingAverage`.
pub mod Laws
use push_and_pray.Prelude.{ℕ, suc, ◌+◌, ◌-◌, List, [], ◌∷◌, map, length, take, drop}
use push_and_pray.Types.{Observation, Metric, price, change, SeriesPoint}
use push_and_pray.Platform.{Dates, Number}
use push_and_pray.Data.Unique.{happened, unique_chronological}

-- `points.slice(Math.max(0, index - size + 1), index + 1)`: `-` stops at 0, as the `max` does.
unfoldable pub window_at : {W : Type 0} → ℕ → List (SeriesPoint W) → ℕ → List (SeriesPoint W)
window_at size points index = drop (index + 1 - size) (take (index + 1) points)

module _ {W : Type 0} ⦃n : Number W⦄ where
  -- `(raw / base - 1) * 100`
  unfoldable pub percent_change : W → W → W
  percent_change raw base = n.mul (n.sub (n.div raw base) (n.literal 1)) (n.literal 100)

  unfoldable pub point_value : Metric → W → W → W
  unfolding percent_change
  point_value change base raw = percent_change raw base
  point_value price base raw = raw

  -- The sum of a window, from 0 and in order.
  unfoldable pub sum_values : W → List (SeriesPoint W) → W
  sum_values sum [] = sum
  sum_values sum (p ∷ ps) = sum_values (n.add sum p.value) ps

  unfoldable pub mean : List (SeriesPoint W) → W
  unfolding sum_values
  mean window = n.div (sum_values (n.literal 0) window) (n.literal (length window))

  -- The point at `index` of `points`, with its window's mean for a value.
  unfoldable pub averaged : ℕ → List (SeriesPoint W) → ℕ → SeriesPoint W → SeriesPoint W
  unfolding mean window_at
  averaged size points index point = record point { value = mean (window_at size points index) }

  -- The `map` over the points from `index` on.
  unfoldable pub average_from :
      ℕ → List (SeriesPoint W) → ℕ → List (SeriesPoint W) → List (SeriesPoint W)
  unfolding averaged
  average_from size points index [] = []
  average_from size points index (p ∷ ps) =
      averaged size points index p ∷ average_from size points (suc index) ps

  unfoldable pub rolling_average : List (SeriesPoint W) → ℕ → List (SeriesPoint W)
  unfolding average_from
  rolling_average points size = average_from size points 0 points

  module _ ⦃d : Dates⦄ where
    unfoldable pub to_point : Metric → W → Observation → SeriesPoint W
    unfolding point_value happened
    to_point metric base item =
        let raw = n.read item.price in
        record {
          time = happened item;
          value = point_value metric base raw;
          raw = raw;
          observation = item;
        }

    unfoldable pub points_of : Metric → List Observation → List (SeriesPoint W)
    unfolding to_point
    points_of metric [] = []
    points_of metric (first ∷ rest) = map (to_point metric (n.read first.price)) (first ∷ rest)

    unfoldable pub to_series_points : List Observation → Metric → List (SeriesPoint W)
    unfolding points_of unique_chronological
    to_series_points items metric = points_of metric (unique_chronological items)
