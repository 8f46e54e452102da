-- ===== src/Chart/Option/Series.antt =====
-- The series of the option, with the properties that depend on nothing.
use push_and_pray.Prelude.{ℕ, Bool, true, false, Option, none, some, List, [], ◌∷◌, ◌++◌, map}
use push_and_pray.Prelude.Text.{Text}
use push_and_pray.Js.Value.{
  function, Value, undefined, boolean, hundredths, number, instant, string, obj, arr, whole, str,
}
use push_and_pray.Types.{Metric, ChartGroup, ChartStyle, MovingAverage}
use push_and_pray.Platform.{Number}
use push_and_pray.Chart.Options.{Datum, ChartSeries, main_series, average_all, average_window}

-- The functions in the option, each with what it closes over.
pub data Formatter : Type 0 where
  tooltip_formatter axis_formatter : Metric → Formatter
  -- What `SERIES_COLORS` inherits under the name of a series' code, in place of a color.
  inherited_color : Formatter

module _ {W : Type 0} where
  -- `[point.time, point.value, point.raw, source, source_observed_at]`
  unfoldable pub datum_value : Datum W → Value Formatter W
  datum_value x =
      arr (
        instant x.time
        ∷ number x.value
        ∷ number x.raw
        ∷ string x.source
        ∷ string x.observed_at
        ∷ [])

  abbrev pub color_value : Option Text → Value Formatter W
  color_value none = function inherited_color
  color_value (some color) = string color

  abbrev smooth_value : Option ℕ → Value Formatter W
  smooth_value none = boolean false
  smooth_value (some n) = hundredths n

  abbrev size_value : Option ℕ → Value Formatter W
  size_value none = undefined
  size_value (some n) = hundredths n

  -- `new echarts.graphic.LinearGradient(0, 0, 0, 1, [...])`, by its arguments.
  abbrev area_value : Option (Text × Text) → Value Formatter W
  area_value none = undefined
  area_value (some (top, bottom)) = obj (
      (
        "color",
        arr (
            whole 0
            ∷ whole 0
            ∷ whole 0
            ∷ whole 1
            ∷ arr (
                obj (("offset", whole 0) ∷ ("color", string top) ∷ [])
                ∷ obj (("offset", whole 1) ∷ ("color", string bottom) ∷ [])
                ∷ [])
            ∷ []),
      )
      ∷ [])

  unfoldable pub main_option : ChartSeries W → Value Formatter W
  unfolding datum_value
  main_option c = obj (
      ("id", string c.id)
      ∷ ("name", string c.name)
      ∷ ("type", str "line")
      ∷ ("data", arr (map datum_value c.values))
      ∷ ("smooth", smooth_value c.smooth)
      ∷ ("showSymbol", boolean c.show_symbol)
      ∷ ("symbol", str "circle")
      ∷ ("symbolSize", size_value c.symbol_size)
      ∷ ("sampling", str "lttb")
      ∷ ("connectNulls", boolean true)
      ∷ (
        "lineStyle",
        obj (("width", hundredths c.line_width) ∷ ("color", color_value c.color) ∷ []),
      )
      ∷ (
        "itemStyle",
        obj (
            ("color", color_value c.color)
            ∷ ("borderColor", str "#101815")
            ∷ ("borderWidth", whole 2)
            ∷ []),
      )
      ∷ ("areaStyle", area_value c.area)
      ∷ (
        "emphasis",
        obj (("focus", str "series") ∷ ("lineStyle", obj (("width", hundredths 350) ∷ [])) ∷ []),
      )
      ∷ [])

  unfoldable pub average_option : ChartSeries W → Value Formatter W
  unfolding datum_value
  average_option c = obj (
      ("id", string c.id)
      ∷ ("name", string c.name)
      ∷ ("type", str "line")
      ∷ ("data", arr (map datum_value c.values))
      ∷ ("showSymbol", boolean c.show_symbol)
      ∷ ("smooth", smooth_value c.smooth)
      ∷ ("silent", boolean c.silent)
      ∷ (
        "lineStyle",
        obj (
            ("width", hundredths c.line_width)
            ∷ ("type", str "dashed")
            ∷ ("opacity", hundredths 72)
            ∷ ("color", color_value c.color)
            ∷ []),
      )
      ∷ [])

  -- `[...mainSeries, ...averageSeries]`
  unfoldable pub series_values :
      ⦃n : Number W⦄ → ChartGroup W → ChartStyle → Bool → MovingAverage → List (Value Formatter W)
  unfolding main_option average_option main_series average_all average_window
  series_values group style smooth average =
      map (λ s. main_option (main_series style smooth s)) group.series
      ++ map average_option (average_all (average_window average) group.series)
