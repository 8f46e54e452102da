-- ===== src/Data/Charts/Contract.antt =====
-- What `createChartGroups` promises of its charts.
use push_and_pray.Prelude.{
  ℕ, ◌≡◌, ◌≢◌, false, none, List, [], ◌∷◌, ◌++◌, Ordered, map, arith, All, Any,
}
use push_and_pray.Prelude.Text.{Text, codes}
use push_and_pray.Js.Object.{is_inherited, find}
use push_and_pray.Types.{Observation, Metric, Series, ChartGroup}
use push_and_pray.Platform.{Dates, Number}
use push_and_pray.Data.Groups.Laws.{rows_with}
use push_and_pray.Data.Groups.Entries.{code_of}
use push_and_pray.Data.Points.{to_series_points}
use push_and_pray.Data.Charts.{Entry, series_color}

abbrev pub unknown_unit : Text
unknown_unit = codes "Unknown unit"

-- Neither the code nor the unit of an observation is a name that `{}` inherits.
abbrev pub IsPlainObservation : Observation → Type 0
IsPlainObservation x = (is_inherited x.instrument_code ≡ false) × (is_inherited x.unit ≡ false)

-- An entry of the grouped observations: the rows of its code, of which there are some.
pub record IsEntryOf (items : List Observation) (e : Entry) : Type 0 where
  pub rows : e.1 ≡ rows_with code_of e.0 items
  pub nonempty : e.1 ≢ []
  pub plain : is_inherited e.0 ≡ false

pub series_color-some :
    (code : Text) (index : ℕ) → is_inherited code ≡ false → series_color code index ≢ none
unfolding series_color find
series_color-some code index plain = ground arith

-- The codes of all series, chart by chart.
abbrev pub series_codes : {W : Type 0} → List (Series W) → List Text
series_codes series = map (λ s. s.code) series

abbrev pub codes_of : {W : Type 0} → List (ChartGroup W) → List Text
codes_of [] = []
codes_of (c ∷ cs) = series_codes c.series ++ codes_of cs

module _ {W : Type 0} ⦃n : Number W⦄ ⦃d : Dates⦄ where
  module _ (items : List Observation) (metric : Metric) where
    -- A series shows the points of all observations of its code, in a color.
    pub record IsDrawn (s : Series W) : Type 0 where
      pub points : s.points ≡ to_series_points (rows_with code_of s.code items) metric
      pub color : s.color ≢ none

    -- Every series is drawn, every observation's code has a series, and no code has two.
    pub record Draws (charts : List (ChartGroup W)) : Type 0 where
      pub sound : All (λ c. All IsDrawn c.series) charts
      pub covers : All (λ x. Any (λ c. Any (λ s. s.code ≡ x.instrument_code) c.series) charts) items
      pub once : Ordered (λ a b. a ≢ b) (codes_of charts)
