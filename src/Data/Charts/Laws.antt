-- ===== src/Data/Charts/Laws.antt =====
-- How `createChartGroups` keeps its contract.
use push_and_pray.Prelude.{
  Ordered-select, Bool-cases, ℕ, suc, ◌≡◌, refl, ap, ◌≢◌, inl, inr, false, List, [], ◌∷◌, map, All,
  Any, All-imp, All-zip, All-select,
}
use push_and_pray.Prelude.Text.{Text, text_eq, text_eq_iff}
use push_and_pray.Js.Outcome.{returns}
use push_and_pray.Js.Object.{is_inherited, entries}
use push_and_pray.Js.Object.Laws.{entries-All, Distinct}
use push_and_pray.Types.{
  Observation, Instrument, Metric, price, change, Layout, separate, compare, ChartGroup,
}
use push_and_pray.Platform.{Dates, Number}
use push_and_pray.Data.Groups.{group_by_instrument}
use push_and_pray.Data.Groups.Laws.{
  rows_with, HasPlainKey, group_own, group_own-All, group_into-returns, entries-IsGrouping,
}
use push_and_pray.Data.Groups.Entries.{code_of, IsGrouping-Any}
use push_and_pray.Data.Points.{to_series_points}
use push_and_pray.Data.Charts.{
  Entry, unit_or, by_unit, make_series, series_from, separate_charts, comparison_chart, unit_chart,
  charts_of, create_chart_groups,
}
use push_and_pray.Data.Charts.Contract.{
  unknown_unit, IsPlainObservation, IsEntryOf, series_color-some, IsDrawn, Draws,
}
use push_and_pray.Data.Charts.Once.{series_from_once, separate_charts_once, unit_charts_once}

pub rows_with-All :
    (u : Text) (es : List Entry)
    → All (λ e. unit_or unknown_unit e ≡ u) (rows_with (unit_or unknown_unit) u es)
rows_with-All u [] = tt
rows_with-All u (e ∷ es) = elim (Bool-cases (text_eq (unit_or unknown_unit e) u)) [
  | inl h ↦ rw h ((text_eq_iff (unit_or unknown_unit e) u).0 h, rows_with-All u es)
  | inr h ↦ rw h (rows_with-All u es)
]

module _ (W : Type 0) ⦃n : Number W⦄ ⦃d : Dates⦄ (items : List Observation) (metric : Metric)
    (instruments : List Instrument) where
  make_series-IsDrawn :
      (e : Entry) (index : ℕ)
      → IsEntryOf items e
      → IsDrawn {W = W} items metric (make_series instruments metric e index)
  unfolding make_series
  make_series-IsDrawn e index is = record {
    points = ap (λ rows. to_series_points rows metric) is.rows;
    color = series_color-some e.0 index is.plain;
  }

  series_from-IsDrawn :
      (index : ℕ) (es : List Entry)
      → All (IsEntryOf items) es
      → All (IsDrawn {W = W} items metric) (series_from instruments metric index es)
  unfolding series_from
  series_from-IsDrawn index [] h = tt
  series_from-IsDrawn index (e ∷ es) h =
      (make_series-IsDrawn e index h.0, series_from-IsDrawn (suc index) es h.1)

  series_from-Any :
      (code : Text) (index : ℕ) (es : List Entry)
      → Any (λ e. e.0 ≡ code) es
      → Any (λ s. s.code ≡ code) (series_from {W = W} instruments metric index es)
  unfolding series_from make_series
  series_from-Any code index [] h = h
  series_from-Any code index (e ∷ es) (inl h) = inl h
  series_from-Any code index (e ∷ es) (inr h) = inr (series_from-Any code (suc index) es h)

  separate_charts_sound :
      (index : ℕ) (es : List Entry)
      → All (IsEntryOf items) es
      → All
          (λ c. All (IsDrawn {W = W} items metric) c.series)
          (separate_charts instruments metric index es)
  unfolding separate_charts
  separate_charts_sound index [] h = tt
  separate_charts_sound index (e ∷ es) h =
      ((make_series-IsDrawn e index h.0, tt), separate_charts_sound (suc index) es h.1)

  separate_charts-Any :
      (code : Text) (index : ℕ) (es : List Entry)
      → Any (λ e. e.0 ≡ code) es
      → Any
          (λ c. Any (λ s. s.code ≡ code) c.series)
          (separate_charts {W = W} instruments metric index es)
  unfolding separate_charts make_series
  separate_charts-Any code index [] h = h
  separate_charts-Any code index (e ∷ es) (inl h) = inl (inl h)
  separate_charts-Any code index (e ∷ es) (inr h) = inr (separate_charts-Any code (suc index) es h)

  map-All :
      (units : List (Text × List Entry))
      → All (λ g. All (IsEntryOf items) g.1) units
      → All
          (λ c. All (IsDrawn {W = W} items metric) c.series)
          (map (unit_chart instruments metric) units)
  map-All [] h = tt
  map-All (g ∷ gs) h = (unfold unit_chart in series_from-IsDrawn 0 g.1 h.0, map-All gs h.1)

  map-Any :
      (code : Text) (units : List (Text × List Entry))
      → Any (λ g. Any (λ e. e.0 ≡ code) g.1) units
      → Any
          (λ c. Any (λ s. s.code ≡ code) c.series)
          (map (unit_chart {W = W} instruments metric) units)
  map-Any code [] h = h
  map-Any code (g ∷ gs) (inl h) = inl (unfold unit_chart in series_from-Any code 0 g.1 h)
  map-Any code (g ∷ gs) (inr h) = inr (map-Any code gs h)

module _ (W : Type 0) ⦃n : Number W⦄ ⦃d : Dates⦄ (items : List Observation)
    (instruments : List Instrument) where
  abbrev DrawnBy : Metric → Layout → List Entry → Type 0
  DrawnBy metric layout es =
      (charts : List (ChartGroup W)) × (charts_of instruments metric layout es ≡ returns charts)
      × Draws {W = W} items metric charts

  compared_by_unit :
      (es : List Entry)
      → All (IsEntryOf items) es
      → All (λ x. Any (λ e. e.0 ≡ x.instrument_code) es) items
      → Distinct es
      → All (HasPlainKey (unit_or unknown_unit)) es
      → DrawnBy price compare es
  unfolding charts_of by_unit
  compared_by_unit es is covers apart plain =
      let units = entries (group_own (unit_or unknown_unit) [] es) in
      let grouping = entries-IsGrouping (unit_or unknown_unit) es in
      (
        map (unit_chart instruments price) units,
        (rw (group_into-returns (unit_or unknown_unit) es plain)),
        record {
          sound = map-All W items price instruments units (
              All-imp _ _ units (λ g stored. rw stored.0 (All-select (IsEntryOf items) _ es is))
                grouping.rows);
          covers =
              All-imp _ _ items
                (λ x any. map-Any W items price instruments x.instrument_code units (
                  IsGrouping-Any (unit_or unknown_unit) (λ e. e.0 ≡ x.instrument_code) es units
                    grouping any))
                covers;
          once = unit_charts_once W instruments price items units grouping.distinct (
              All-imp _ _ units
                (λ g stored. (
                  rw stored.0 (Ordered-select (λ p q. p.0 ≢ q.0) _ es apart),
                  All-zip _ _ _ g.1 (λ e x y. (x, y))
                      (rw stored.0 (All-select (IsEntryOf items) _ es is))
                      (rw stored.0 (rows_with-All g.0 es)),
                ))
                grouping.rows);
        },
      )

  -- From the entries of the grouped observations, every layout draws a series for each code.
  charts_of-Draws :
      (metric : Metric) (layout : Layout) (es : List Entry)
      → All (IsEntryOf items) es
      → All (λ x. Any (λ e. e.0 ≡ x.instrument_code) es) items
      → Distinct es
      → All (HasPlainKey (unit_or unknown_unit)) es
      → DrawnBy metric layout es
  unfolding charts_of comparison_chart
  charts_of-Draws metric separate es is covers apart plain = (
    separate_charts instruments metric 0 es,
    refl,
    record {
      sound = separate_charts_sound W items metric instruments 0 es is;
      covers =
          All-imp _ _ items
            (λ x any. separate_charts-Any W items metric instruments x.instrument_code 0 es any)
            covers;
      once = separate_charts_once W instruments metric es apart;
    },
  )
  charts_of-Draws change compare es is covers apart plain = (
    comparison_chart instruments change es ∷ [],
    refl,
    record {
      sound = (series_from-IsDrawn W items change instruments 0 es is, tt);
      covers =
          All-imp _ _ items
            (λ x any. inl (series_from-Any W items change instruments x.instrument_code 0 es any))
            covers;
      once = series_from_once W instruments change es apart;
    },
  )
  charts_of-Draws price compare es is covers apart plain = compared_by_unit es is covers apart plain

  plain_unit :
      (e : Entry)
      → All (λ x. is_inherited x.unit ≡ false) e.1
      → HasPlainKey (unit_or unknown_unit) e
  unfolding unit_or is_inherited
  plain_unit (code, []) h = refl
  plain_unit (code, first ∷ rest) h = h.0

  -- The entries of the grouped observations.
  pub grouped-IsEntryOf :
      All IsPlainObservation items
      → let es = entries (group_own code_of [] items) in
        (group_by_instrument items ≡ returns (group_own code_of [] items))
        × All (IsEntryOf items) es
        × All (HasPlainKey (unit_or unknown_unit)) es
  unfolding group_by_instrument
  grouped-IsEntryOf plain =
      let plain_codes = All-imp _ (HasPlainKey code_of) items (λ x p. p.0) plain in
      let plain_units = All-imp _ (λ x. is_inherited x.unit ≡ false) items (λ x p. p.1) plain in
      let grouped = group_own code_of [] items in
      let grouping = entries-IsGrouping code_of items in
      let plain_keys =
        entries-All (λ e. is_inherited e.0 ≡ false) grouped
          (group_own-All code_of (λ k. is_inherited k ≡ false) [] items tt plain_codes) in
      (
        group_into-returns code_of items plain_codes,
        All-zip _ (λ e. is_inherited e.0 ≡ false) (IsEntryOf items) (entries grouped)
            (λ e stored p. record { rows = stored.0; nonempty = stored.1; plain = p }) grouping.rows
            plain_keys,
        All-imp _ _ (entries grouped)
            (λ e stored. plain_unit e (rw stored.0 (All-select _ _ items plain_units)))
            grouping.rows,
      )

  -- Where no instrument code and no unit is a name that `{}` inherits, `createChartGroups` returns
  -- charts in which each observation's code has a series, no code has two, and each series shows the
  -- points of all observations of its code and has a color, in both layouts and both metrics.
  pub create_chart_groups-Draws :
      (metric : Metric) (layout : Layout)
      → All IsPlainObservation items
      → (charts : List (ChartGroup W)) × (create_chart_groups items instruments metric layout
          ≡ returns charts)
        × Draws {W = W} items metric charts
  unfolding create_chart_groups
  create_chart_groups-Draws metric layout plain =
      let (returned, is, plain_keys) = grouped-IsEntryOf plain in
      let es = entries (group_own code_of [] items) in
      let (charts, drawn, contract) =
        charts_of-Draws metric layout es is (entries-IsGrouping code_of items).covers
          (entries-IsGrouping code_of items).distinct plain_keys in
      (charts, rw returned drawn, contract)
