-- ===== src/Data/Charts.antt =====
-- `createChartGroups`: which charts are drawn, and which series stand in each.
pub mod Contract
pub mod Once
pub mod Laws
pub mod Units
use push_and_pray.Prelude.{
  ℕ, suc, ◌%◌, ◌==◌, Option, none, some, List, [], ◌∷◌, map, length, ltb, if◌then◌else◌,
}
use push_and_pray.Prelude.Text.{Text, codes, text_eq}
use push_and_pray.Js.Eq.{text_key}
use push_and_pray.Js.Outcome.{Outcome, returns, throws, ◌>>=◌}
use push_and_pray.Js.KeyMap.{KeyMap}
use push_and_pray.Js.KeyMap
use push_and_pray.Js.Object.{Object, Property, own, inherited, missing, get, entries}
use push_and_pray.Types.{
  Observation, Instrument, Metric, price, change, Layout, separate, compare, Series, ChartGroup,
}
use push_and_pray.Platform.{Dates, Number}
use push_and_pray.Data.Groups.{group_into, group_by_instrument}
use push_and_pray.Data.Points.{to_series_points}

abbrev pub series_colors : Object Text
series_colors =
    (codes "WTI_USD_BBL", codes "#de8051")
    ∷ (codes "BRENT_USD_BBL", codes "#72b6a1")
    ∷ (codes "RBOB_GASOLINE_USD_GAL", codes "#d5b65f")
    ∷ []

unfoldable pub fallback_color : ℕ → Text
fallback_color index =
    let at = index % 4 in
    if at == 0
    then codes "#7c9fd4"
    else if at == 1
    then codes "#b58bd0"
    else if at == 2
    then codes "#d47b8e"
    else codes "#8fb56d"

-- `SERIES_COLORS[code] ?? fallbackColor(index)`; `none` where the value is no text, but a function
-- or an object that `{}` inherits.
unfoldable pub series_color : Text → ℕ → Option Text
unfolding get fallback_color
series_color code index = elim (get code series_colors) [
  | own color ↦ some color
  | inherited ↦ none
  | missing ↦ some (fallback_color index)
]

abbrev pub Entry : Type 0
Entry = Text × List Observation

abbrev pub unit_of_change : Text
unit_of_change = codes "Change from first visible point"

-- `new Map(instruments.map((item) => [item.code, item])).get(code)?.name`
unfoldable pub instrument_name : List Instrument → Text → Option Text
unfolding KeyMap.set_all KeyMap.set KeyMap.get
instrument_name instruments code =
    elim (KeyMap.get code (KeyMap.set_all (map (λ item. (item.code, item)) instruments) [])) [
      | none ↦ none
      | some item ↦ some item.name
    ]

-- `instrument?.name ?? rows[0]?.instrument_name ?? code`
unfoldable pub display_name : List Instrument → Entry → Text
unfolding instrument_name
display_name instruments (code, rows) = elim (instrument_name instruments code) [
  | some name ↦ name
  | none ↦ elim rows [ [] ↦ code | first ∷ _ ↦ first.instrument_name ]
]

-- `entry[1][0]?.unit ?? otherwise`
unfoldable pub unit_or : Text → Entry → Text
unit_or otherwise (code, []) = otherwise
unit_or otherwise (code, first ∷ _) = first.unit

-- `entries[0]?.[1][0]?.instrument_name ?? unit`, where more than one entry has a fixed title.
unfoldable pub unit_title : Text → List Entry → Text
unit_title unit [] = unit
unit_title unit ((code, []) ∷ []) = unit
unit_title unit ((code, first ∷ _) ∷ []) = first.instrument_name
unit_title unit (_ ∷ _ ∷ _) = codes "Crude benchmarks"

abbrev pub separate_unit : Metric → Entry → Text
separate_unit change e = unit_of_change
separate_unit price e = unit_or (codes "") e

unfoldable pub by_unit : List Entry → Outcome (Object (List Entry))
unfolding group_into unit_or
by_unit es = group_into (unit_or (codes "Unknown unit")) [] es

module _ {W : Type 0} ⦃n : Number W⦄ ⦃d : Dates⦄ where
  module _ (instruments : List Instrument) (metric : Metric) where
    unfoldable pub make_series : Entry → ℕ → Series W
    unfolding display_name series_color to_series_points
    make_series (code, rows) index = record {
      code = code;
      name = display_name instruments (code, rows);
      color = series_color code index;
      points = to_series_points rows metric;
    }

    -- `entries.map(([code, rows], index) => makeSeries(code, rows, index))`
    unfoldable pub series_from : ℕ → List Entry → List (Series W)
    unfolding make_series
    series_from index [] = []
    series_from index (e ∷ es) = make_series e index ∷ series_from (suc index) es

    unfoldable pub separate_charts : ℕ → List Entry → List (ChartGroup W)
    unfolding make_series display_name unit_or
    separate_charts index [] = []
    separate_charts index (e ∷ es) =
        record {
          key = e.0;
          title = display_name instruments e;
          unit = separate_unit metric e;
          series = make_series e index ∷ [];
        }
        ∷ separate_charts (suc index) es

    unfoldable pub comparison_chart : List Entry → ChartGroup W
    unfolding series_from
    comparison_chart es = record {
      key = codes "comparison";
      title = codes "Relative performance";
      unit = unit_of_change;
      series = series_from 0 es;
    }

    unfoldable pub unit_chart : Text × List Entry → ChartGroup W
    unfolding series_from unit_title
    unit_chart (unit, es) = record {
      key = unit;
      title = unit_title unit es;
      unit = unit;
      series = series_from 0 es;
    }

  -- What is drawn of the entries of `grouped`.
  unfoldable pub charts_of :
      List Instrument → Metric → Layout → List Entry → Outcome (List (ChartGroup W))
  unfolding separate_charts comparison_chart unit_chart by_unit entries
  charts_of instruments metric separate es = returns (separate_charts instruments metric 0 es)
  charts_of instruments change compare es = returns (comparison_chart instruments change es ∷ [])
  charts_of instruments price compare es = do
    units ← by_unit es
    returns (map (unit_chart instruments price) (entries units))

  unfoldable pub create_chart_groups :
      List Observation → List Instrument → Metric → Layout → Outcome (List (ChartGroup W))
  unfolding charts_of group_by_instrument entries
  create_chart_groups items instruments metric layout = do
    grouped ← group_by_instrument items
    charts_of instruments metric layout (entries grouped)
