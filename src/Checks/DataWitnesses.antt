-- ===== src/Checks/DataWitnesses.antt =====
-- The theorems on data.ts and format.ts at concrete inputs.
use push_and_pray.Prelude.{
  ◌⊎◌, ◌<◌, arith, ℕ, ◌≡◌, refl, ◌≢◌, inl, List, [], ◌∷◌, All, Any, Ordered, select,
}
use push_and_pray.Prelude.Text.{Text, codes, is_empty, text_eq}
use push_and_pray.Js.Outcome.{returns, throws}
use push_and_pray.Js.KeyMap.{has}
use push_and_pray.Js.Object.{Object, entries, is_inherited}
use push_and_pray.Types.{Observation, price, change, compare, days_1, SeriesPoint, ChartGroup}
use push_and_pray.Platform.Samples.{decimal_dates, whole_numbers, observation, rows, instruments}
use push_and_pray.Data.Unique.{scheduled, happened, unique_chronological}
use push_and_pray.Data.Unique.Laws.{Earlier, IsDated}
use push_and_pray.Data.Unique.Ties.{Follows, unique_chronological-Follows}
use push_and_pray.Data.Unique.Result.{unique_chronological-Ordered}
use push_and_pray.Data.Visible.{filter_visible, range_days}
use push_and_pray.Data.Visible.Laws.{keeps, matching, filter_visible-eq-select}
use push_and_pray.Data.Visible.Cases.{filter_visible-invalid, filter_visible_nonempty}
use push_and_pray.Data.Groups.{group_by_instrument}
use push_and_pray.Data.Groups.Laws.{IsGrouping}
use push_and_pray.Data.Groups.Entries.{group_by_instrument-IsGrouping, group_by_instrument-throws}
use push_and_pray.Data.Points.{rolling_average, to_series_points}
use push_and_pray.Data.Points.Laws.{
  streaming_average, rolling_average-eq-streaming, to_series_points-First, First,
}
use push_and_pray.Data.Charts.{create_chart_groups}
use push_and_pray.Data.Charts.Units.{IsUnitChart, create_chart_groups-IsUnitChart}
use push_and_pray.Data.Charts.Contract.{Draws}
use push_and_pray.Data.Charts.Laws.{create_chart_groups-Draws}

rows-IsDated : All IsDated rows
unfolding scheduled happened is_empty
rows-IsDated = ((tt, tt), ((tt, tt), ((tt, tt), ((tt, tt), tt))))

unique_chronological-Ordered_example :
    Ordered (λ x y. Earlier (happened x) (happened y)) (unique_chronological rows)
unique_chronological-Ordered_example = unique_chronological-Ordered rows rows-IsDated

-- The rows are numbered in their order.
abbrev IsBefore : Observation → Observation → Type 0
IsBefore x y = whole_numbers.read x.id < whole_numbers.read y.id

rows-IsBefore : Ordered IsBefore rows
rows-IsBefore = (
  (omega arith, (omega arith, (omega arith, tt))),
  ((omega arith, (omega arith, tt)), ((omega arith, tt), (tt, tt))),
)

unique_chronological-Follows_example :
    All
      (λ x.
        Any
          (λ y. (happened y ≡ happened x) × ((x ≡ y) ⊎ Follows IsBefore x y))
          (unique_chronological rows))
      rows
unique_chronological-Follows_example =
    unique_chronological-Follows IsBefore rows rows-IsBefore rows-IsDated

abbrev both : List Text
both = codes "WTI_USD_BBL" ∷ codes "BRENT_USD_BBL" ∷ []

filter_visible-eq-select_example :
    filter_visible rows both days_1
    ≡ select (keeps (range_days days_1) (matching rows both)) (matching rows both)
filter_visible-eq-select_example = filter_visible-eq-select rows both days_1

-- A row whose date is no number.
abbrev with_bad_row : List Observation
with_bad_row = observation "WTI_USD_BBL" "70" "soon" "210" ∷ rows

filter_visible-invalid_example : filter_visible with_bad_row both days_1 ≡ []
unfolding has text_eq happened is_empty
filter_visible-invalid_example =
    filter_visible-invalid with_bad_row both days_1 (λ e. cc) (inl refl)

filter_visible_nonempty_example : filter_visible rows both days_1 ≢ []
unfolding has text_eq happened is_empty
filter_visible_nonempty_example =
    filter_visible_nonempty rows both days_1 (tt, (tt, (tt, (tt, tt)))) (λ e. cc)

group_by_instrument-IsGrouping_example :
    (grouped : Object (List Observation)) × (group_by_instrument rows ≡ returns grouped)
    × IsGrouping (λ item. item.instrument_code) rows (entries grouped)
unfolding is_inherited
group_by_instrument-IsGrouping_example =
    group_by_instrument-IsGrouping rows (refl, (refl, (refl, (refl, tt))))

group_by_instrument-throws_example :
    group_by_instrument (observation "valueOf" "1" "1" "1" ∷ rows) ≡ throws
unfolding is_inherited
group_by_instrument-throws_example =
    group_by_instrument-throws (observation "valueOf" "1" "1" "1" ∷ rows) (inl refl)

create_chart_groups-Draws_example :
    (charts : List (ChartGroup ℕ)) × (create_chart_groups rows instruments price compare
      ≡ returns charts)
    × Draws {W = ℕ} rows price charts
unfolding is_inherited
create_chart_groups-Draws_example =
    create_chart_groups-Draws ℕ rows instruments price compare
      ((refl, refl), ((refl, refl), ((refl, refl), ((refl, refl), tt))))

create_chart_groups-IsUnitChart_example :
    (charts : List (ChartGroup ℕ)) × (create_chart_groups rows instruments price compare
      ≡ returns charts)
    × All (IsUnitChart ℕ rows instruments) charts
    × Ordered (λ a b. a.unit ≢ b.unit) charts
unfolding is_inherited
create_chart_groups-IsUnitChart_example =
    create_chart_groups-IsUnitChart ℕ rows instruments
      ((refl, refl), ((refl, refl), ((refl, refl), ((refl, refl), tt))))

abbrev some_points : List (SeriesPoint ℕ)
some_points = to_series_points rows price

rolling_average-eq-streaming_example :
    rolling_average some_points 2 ≡ streaming_average 2 [] some_points
rolling_average-eq-streaming_example = rolling_average-eq-streaming some_points 2

to_series_points-First_example : First (λ p. p.value ≡ 0) (to_series_points {W = ℕ} rows change)
to_series_points-First_example =
    to_series_points-First {W = ℕ} rows (refl, (refl, (refl, (refl, tt)))) refl refl
