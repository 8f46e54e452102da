-- ===== src/Chart/Options.antt =====
-- The part of the chart's option that depends on the data and the controls: its series, colors,
-- legend and axis. Sizes are in hundredths, as the source writes fractions such as 0.24 and 2.5.
use push_and_pray.Prelude.{
  ℕ, suc, ◌+◌, ◌≡◌, refl, sym, ap, ◌∙◌, append_assoc, Bool, true, false, Option, none, some, List,
  [], ◌∷◌, ◌++◌, map, length, ltb, if◌then◌else◌,
}
use push_and_pray.Prelude.Text.{Text, codes, includes, includes-append}
use push_and_pray.Js.Eq.{Instant}
use push_and_pray.Types.{
  SeriesPoint, Series, ChartGroup, ChartStyle, area, points, Metric, price, change, Scale, log,
  MovingAverage, off, over_3, over_7,
}
use push_and_pray.Platform.{Number}
use push_and_pray.Data.Points.{averaged, average_from, rolling_average}

-- One entry of a series' `data`.
pub record Datum (W : Type 0) : Type 0 where
  pub time : Instant
  pub value : W
  pub raw : W
  pub source : Text
  pub observed_at : Text

pub data LineType : Type 0 where
  solid dashed : LineType

-- A series of ECharts. `smooth` is none for `false`; `symbol` is none where no size is given.
pub record ChartSeries (W : Type 0) : Type 0 where
  pub id : Text
  pub name : Text
  pub values : List (Datum W)
  pub smooth : Option ℕ
  pub show_symbol : Bool
  pub symbol_size : Option ℕ
  pub line_width : ℕ
  pub line_type : LineType
  pub color : Option Text
  -- The two ends of the area's gradient.
  pub area : Option (Text × Text)
  pub silent : Bool

abbrev is_points : ChartStyle → Bool
is_points points = true
is_points _ = false

-- A color that is not there is a function under an inherited name, whose text is left open: no gradient.
abbrev gradient : ChartStyle → Option Text → Option (Text × Text)
gradient area (some color) = some (color ++ codes "4d", color ++ codes "05")
gradient _ _ = none

-- `movingAverage === "off" ? 0 : Number(movingAverage)`
unfoldable pub average_window : MovingAverage → ℕ
average_window off = 0
average_window over_3 = 3
average_window over_7 = 7

-- The mark by which the tooltip knows an average, and the window behind it, a single digit.
abbrev pub average_mark : Text
average_mark = codes "· MA"

unfoldable pub average_name : Text → ℕ → Text
average_name name window = name ++ (codes " " ++ (average_mark ++ ((window + b'0') ∷ [])))

module _ {W : Type 0} where
  unfoldable pub datum : SeriesPoint W → Datum W
  datum p = record {
    time = p.time;
    value = p.value;
    raw = p.raw;
    source = p.observation.source;
    observed_at = p.observation.source_observed_at;
  }

  unfoldable pub main_series : ChartStyle → Bool → Series W → ChartSeries W
  unfolding datum
  main_series style smooth series = record {
    id = series.code;
    name = series.name;
    values = map datum series.points;
    smooth = if smooth then some 24 else none;
    show_symbol = is_points style;
    symbol_size = some (if is_points style then 800 else 500);
    line_width = if is_points style then 0 else 250;
    line_type = solid;
    color = series.color;
    area = gradient style series.color;
    silent = false;
  }

  module _ ⦃n : Number W⦄ where
    unfoldable pub average_series : ℕ → Series W → ChartSeries W
    unfolding datum rolling_average average_name
    average_series window series = record {
      id = series.code ++ codes "-average";
      name = average_name series.name window;
      values = map datum (rolling_average series.points window);
      smooth = some 30;
      show_symbol = false;
      symbol_size = none;
      line_width = 150;
      line_type = dashed;
      color = series.color;
      area = none;
      silent = true;
    }

    -- `averageWindow > 0 ? group.series.map(...) : []`
    unfoldable pub average_all : ℕ → List (Series W) → List (ChartSeries W)
    unfolding average_series
    average_all window series = if ltb 0 window then map (average_series window) series else []

    unfoldable pub chart_series :
        ChartGroup W → ChartStyle → Bool → MovingAverage → List (ChartSeries W)
    unfolding main_series average_all average_window
    chart_series group style smooth average =
        map (main_series style smooth) group.series
        ++ average_all (average_window average) group.series

  -- `color: group.series.map((series) => series.color)` and `legend.data`
  unfoldable pub palette : ChartGroup W → List (Option Text)
  palette group = map (λ s. s.color) group.series

  unfoldable pub legend : ChartGroup W → List Text
  legend group = map (λ s. s.name) group.series

  -- The heading's count of points.
  unfoldable pub count_points : ℕ → List (Series W) → ℕ
  count_points total [] = total
  count_points total (s ∷ ss) = count_points (total + length s.points) ss

pub data AxisType : Type 0 where
  log_axis value_axis : AxisType

unfoldable pub axis_type : Metric → Scale → AxisType
axis_type price log = log_axis
axis_type _ _ = value_axis

unfoldable pub axis_name : Metric → Text
axis_name change = codes "CHANGE, %"
axis_name price = codes "USD"

-- An average's name holds the mark.
pub average_name-includes :
    (name : Text) (window : ℕ) → includes average_mark (average_name name window) ≡ true
unfolding average_name
average_name-includes name window =
    ap (includes average_mark) (sym (append_assoc name (codes " ") (average_mark ++ digit)))
    ∙ includes-append (name ++ codes " ") average_mark digit
  where
    digit : Text
    digit = (window + b'0') ∷ []

module _ {W : Type 0} where
  -- An average keeps each point's time, raw price and origin, and changes the value alone.
  abbrev pub SameButValue : Datum W → Datum W → Type 0
  SameButValue a b =
      (a.time ≡ b.time) × (a.raw ≡ b.raw) × (a.source ≡ b.source) × (a.observed_at ≡ b.observed_at)

  abbrev pub Pairwise2 : (Datum W → Datum W → Type 0) → List (Datum W) → List (Datum W) → Type 0
  Pairwise2 R [] [] = Unit
  Pairwise2 R (x ∷ xs) (y ∷ ys) = R x y × Pairwise2 R xs ys
  Pairwise2 R _ _ = ⊥

  module _ ⦃n : Number W⦄ where
    average_from-SameButValue :
        (size : ℕ) (all_points : List (SeriesPoint W)) (index : ℕ) (ps : List (SeriesPoint W))
        → Pairwise2 SameButValue (map datum (average_from size all_points index ps)) (map datum ps)
    unfolding average_from averaged datum
    average_from-SameButValue size all_points index [] = tt
    average_from-SameButValue size all_points index (p ∷ ps) =
        ((refl, refl, refl, refl), average_from-SameButValue size all_points (suc index) ps)

    -- A series' average has a value for each of its points, at the same time, with the same raw price
    -- and origin, and its name holds the mark by which the tooltip leaves it out.
    pub average_series-SameButValue :
        (style : ChartStyle) (smooth : Bool) (window : ℕ) (series : Series W)
        → Pairwise2 SameButValue
            (average_series window series).values
            (main_series style smooth series).values
          × (includes average_mark (average_series window series).name ≡ true)
    unfolding average_series main_series rolling_average
    average_series-SameButValue style smooth window series = (
      average_from-SameButValue window series.points 0 series.points,
      average_name-includes series.name window,
    )
