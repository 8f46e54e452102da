-- ===== src/Data/Charts/Units.antt =====
-- How `createChartGroups` compares prices: one chart for each unit.
use push_and_pray.Prelude.{
  ℕ, suc, ◌≡◌, refl, sym, ap, ◌∙◌, ◌≢◌, List, [], ◌∷◌, map, All, Ordered, All-imp, All-select,
}
use push_and_pray.Prelude.Text.{Text}
use push_and_pray.Js.Outcome.{returns}
use push_and_pray.Js.Object.{entries}
use push_and_pray.Types.{Observation, Instrument, price, compare, Series, ChartGroup}
use push_and_pray.Platform.{Dates, Number}
use push_and_pray.Data.Groups.Laws.{rows_with, group_own, group_into-returns, entries-IsGrouping}
use push_and_pray.Data.Groups.Entries.{code_of}
use push_and_pray.Data.Charts.{
  Entry, unit_or, by_unit, make_series, series_from, unit_chart, charts_of, create_chart_groups,
}
use push_and_pray.Data.Charts.Contract.{unknown_unit, IsEntryOf, IsPlainObservation}
use push_and_pray.Data.Charts.Laws.{grouped-IsEntryOf, rows_with-All}

module _ (W : Type 0) ⦃n : Number W⦄ ⦃d : Dates⦄ (items : List Observation)
    (instruments : List Instrument) where
  -- The observations of a series are priced in the unit, as its first one says.
  abbrev pub IsPricedIn : Text → Series W → Type 0
  IsPricedIn unit s = unit_or unknown_unit (s.code, rows_with code_of s.code items) ≡ unit

  abbrev pub IsUnitChart : ChartGroup W → Type 0
  IsUnitChart c = (c.series ≢ []) × All (IsPricedIn c.unit) c.series

  series_from-IsPricedIn :
      (unit : Text) (index : ℕ) (es : List Entry)
      → All (IsEntryOf items) es
      → All (λ e. unit_or unknown_unit e ≡ unit) es
      → All (IsPricedIn unit) (series_from {W = W} instruments price index es)
  unfolding series_from make_series
  series_from-IsPricedIn unit index [] is same = tt
  series_from-IsPricedIn unit index ((code, rows) ∷ es) (e, is) (u, same) = (
    ap (λ r. unit_or unknown_unit (code, r)) (sym e.rows) ∙ u,
    series_from-IsPricedIn unit (suc index) es is same,
  )

  series_from_nonempty :
      (es : List Entry) → es ≢ [] → series_from {W = W} instruments price 0 es ≢ []
  unfolding series_from
  series_from_nonempty [] ne h = absurd (ne refl)
  series_from_nonempty (e ∷ es) ne h = cc

  map-IsUnitChart :
      (units : List (Text × List Entry))
      → All
          (λ g.
            (g.1 ≢ []) × All (IsEntryOf items) g.1 × All (λ e. unit_or unknown_unit e ≡ g.0) g.1)
          units
      → All IsUnitChart (map (unit_chart instruments price) units)
  unfolding unit_chart
  map-IsUnitChart [] h = tt
  map-IsUnitChart ((unit, es) ∷ gs) ((ne, is, same), h) =
      ((series_from_nonempty es ne, series_from-IsPricedIn unit 0 es is same), map-IsUnitChart gs h)

  map-Ordered :
      (units : List (Text × List Entry))
      → Ordered (λ g h. g.0 ≢ h.0) units
      → Ordered (λ a b. a.unit ≢ b.unit) (map (unit_chart {W = W} instruments price) units)
  unfolding unit_chart
  map-Ordered [] h = tt
  map-Ordered (g ∷ gs) (apart, h) = (others gs apart, map-Ordered gs h)
    where
      others :
          (hs : List (Text × List Entry))
          → All (λ h. g.0 ≢ h.0) hs
          → All (λ b. g.0 ≢ b.unit) (map (unit_chart {W = W} instruments price) hs)
      others [] k = tt
      others (h' ∷ hs) k = (k.0, others hs k.1)

  -- Where no instrument code and no unit is a name that `{}` inherits, comparing prices draws charts
  -- of different units, none of them empty, and each series stands in the chart of the unit in which
  -- its observations are priced, as the first of them says.
  pub create_chart_groups-IsUnitChart :
      All IsPlainObservation items
      → (charts : List (ChartGroup W)) × (create_chart_groups items instruments price compare
          ≡ returns charts)
        × All IsUnitChart charts
        × Ordered (λ a b. a.unit ≢ b.unit) charts
  unfolding create_chart_groups charts_of by_unit
  create_chart_groups-IsUnitChart plain =
      let (returned, is, plain_keys) = grouped-IsEntryOf W items instruments plain in
      let es = entries (group_own code_of [] items) in
      let units = entries (group_own (unit_or unknown_unit) [] es) in
      let grouping = entries-IsGrouping (unit_or unknown_unit) es in
      (
        map (unit_chart instruments price) units,
        rw (returned, group_into-returns (unit_or unknown_unit) es plain_keys),
        map-IsUnitChart units (
            All-imp _ _ units
              (λ g stored. (
                stored.1,
                rw stored.0 (All-select (IsEntryOf items) _ es is),
                rw stored.0 (rows_with-All g.0 es),
              ))
              grouping.rows),
        map-Ordered units grouping.distinct,
      )
