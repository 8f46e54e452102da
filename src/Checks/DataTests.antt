-- ===== src/Checks/DataTests.antt =====
-- Runs of services/ui/frontend/src/data.ts and format.ts.
use push_and_pray.Prelude.{ℕ, ◌≡◌, refl, List, [], ◌∷◌, map}
use push_and_pray.Prelude.Int.{◌-ℤ◌}
use push_and_pray.Js.KeyMap.{set}
use push_and_pray.Prelude.Text.{Text, codes, text_eq, is_empty}
use push_and_pray.Js.Outcome.{Outcome, returns, throws}
use push_and_pray.Js.Object.{entries, is_inherited, push_own}
use push_and_pray.Js.Sort.{sort}
use push_and_pray.Types.{Observation, Metric, Layout, days_1, SeriesPoint, ChartGroup}
use push_and_pray.Platform.Samples.{decimal_dates, whole_numbers, observation, rows, instruments}
use push_and_pray.Format.{unit_short}
use push_and_pray.Data.Unique.{unique_chronological, minus, scheduled, happened}
use push_and_pray.Data.Visible.{filter_visible}
use push_and_pray.Data.Groups.{group_by_instrument, group_into}
use push_and_pray.Data.Points.{to_series_points, rolling_average}
use push_and_pray.Data.Charts.{create_chart_groups}

abbrev prices : List Observation → List Text
prices = map λ x. x.price

-- Of the two rows for one event the later scheduled one is kept.
latest_kept : prices (unique_chronological rows) ≡ codes "69" ∷ codes "75" ∷ codes "71" ∷ []
unfolding unique_chronological minus scheduled set happened is_empty
latest_kept = refl

one_day : prices (filter_visible rows (codes "BRENT_USD_BBL" ∷ []) days_1) ≡ codes "75" ∷ []
unfolding filter_visible text_eq happened is_empty ◌-ℤ◌
one_day = refl

values_of : List (SeriesPoint ℕ) → List ℕ
values_of = map λ p. p.value

averages : values_of (rolling_average (to_series_points rows Metric.price) 2) ≡ 69 ∷ 72 ∷ 73 ∷ []
unfolding values_of rolling_average to_series_points unique_chronological minus scheduled set
    is_empty
averages = refl

barrels : unit_short (codes "usd PER barrel") ≡ codes "bbl"
unfolding unit_short
barrels = refl

-- An instrument code that `{}` inherits as a name.
inherited_code : group_by_instrument (observation "constructor" "1" "1" "1" ∷ []) ≡ throws
unfolding group_by_instrument group_into is_inherited
inherited_code = refl

-- A key that spells an array index comes first in `Object.entries`.
index_first :
    map (λ e. e.0) (entries {V = ℕ} ((codes "b", 1) ∷ (codes "10", 2) ∷ (codes "9", 3) ∷ []))
    ≡ codes "9" ∷ codes "10" ∷ codes "b" ∷ []
unfolding entries sort
index_first = refl

keys_of : Outcome (List (ChartGroup ℕ)) → List Text
keys_of (returns charts) = map (λ c. c.key) charts
keys_of throws = []

separate_keys :
    keys_of (create_chart_groups rows instruments Metric.price Layout.separate)
    ≡ codes "WTI_USD_BBL" ∷ codes "BRENT_USD_BBL" ∷ []
unfolding keys_of create_chart_groups is_inherited push_own text_eq sort
separate_keys = refl

compare_keys :
    keys_of (create_chart_groups rows instruments Metric.price Layout.compare)
    ≡ codes "USD per barrel" ∷ []
unfolding keys_of create_chart_groups is_inherited push_own text_eq sort
compare_keys = refl
