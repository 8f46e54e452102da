-- ===== src/Chart/Option/Ids.antt =====
-- The identifiers by which ECharts tells the series of an option apart.
use mathlib.Core.List.{append_cancel_right, map-append}
use push_and_pray.Prelude.{
  ℕ, ◌≡◌, ◌≢◌, refl, sym, ap, ◌∙◌, Bool, List, [], ◌∷◌, ◌++◌, map, All, All-imp, All-zip,
  All-append_left, All-append_right, Ordered, Ordered-append_left, Ordered-append_right, subst,
  append-nil, Ordered-append, ltb, if◌then◌else◌, Bool-cases, inl, inr,
}
use push_and_pray.Prelude.Text.{Text, codes, text_eq}
use push_and_pray.Js.Outcome.{returns, returns-inj}
use push_and_pray.Js.Value.{Value, string, values, property, entries_of, items_of}
use push_and_pray.Types.{
  Observation, Instrument, Preferences, Layout, ChartStyle, Series, ChartGroup,
}
use push_and_pray.Platform.{Dates, Number}
use push_and_pray.Data.Charts.{create_chart_groups}
use push_and_pray.Data.Charts.Contract.{IsPlainObservation, series_codes, codes_of}
use push_and_pray.Data.Charts.Laws.{create_chart_groups-Draws}
use push_and_pray.Chart.Props.{PanelProps}
use push_and_pray.App.Page.Analysis.{panel_props}
use push_and_pray.Chart.Options.{main_series, average_series, average_all, average_window}
use push_and_pray.Chart.Option.Series.{Formatter, main_option, average_option, series_values}
use push_and_pray.Chart.Option.Whole.{chart_option}

abbrev AreApart : List Text → Type 0
AreApart = Ordered (λ a b. a ≢ b)

-- The name of no series' average.
abbrev pub IsNoAverage : Text → Type 0
IsNoAverage code = (t : Text) → code ≢ t ++ codes "-average"

module _ {W : Type 0} where
  -- `option.series.map((series) => series.id)`
  unfoldable pub ids_of : Value Formatter W → List (Value Formatter W)
  ids_of option = map (property (codes "id")) (items_of (property (codes "series") option))

  entries-values : (vs : List (Value Formatter W)) → entries_of (values vs) ≡ vs
  unfolding entries_of
  entries-values [] = refl
  entries-values (v ∷ vs) = ap (v ∷◌) (entries-values vs)

-- The codes, and the identifiers of the averages if there are any.
pub average_ids : ℕ → List Text → List Text
average_ids window ids = if ltb 0 window then map (λ code. code ++ codes "-average") ids else []

module _ {W : Type 0} ⦃n : Number W⦄ where
  main_ids :
      (style : ChartStyle) (smooth : Bool) (ss : List (Series W))
      → map (property (codes "id")) (map (λ s. main_option (main_series style smooth s)) ss)
        ≡ map string (series_codes ss)
  unfolding main_option main_series property text_eq
  main_ids style smooth [] = refl
  main_ids style smooth (s ∷ ss) = ap (string s.code ∷◌) (main_ids style smooth ss)

  average_each_ids :
      (window : ℕ) (ss : List (Series W))
      → map (property (codes "id")) (map average_option (map (average_series window) ss))
        ≡ map string (map (λ code. code ++ codes "-average") (series_codes ss))
  unfolding average_option average_series property text_eq
  average_each_ids window [] = refl
  average_each_ids window (s ∷ ss) =
      ap (string (s.code ++ codes "-average") ∷◌) (average_each_ids window ss)

  average_all_ids :
      (window : ℕ) (ss : List (Series W))
      → map (property (codes "id")) (map average_option (average_all window ss))
        ≡ map string (average_ids window (series_codes ss))
  unfolding average_all average_ids
  average_all_ids window ss = elim (Bool-cases (ltb 0 window)) [
    | inl e ↦ rw e (average_each_ids window ss)
    | inr e ↦ rw e refl
  ]

  -- The identifiers of a chart's series: the codes, and those of the averages.
  abbrev pub chart_ids : PanelProps W → List Text
  chart_ids p =
      series_codes p.group.series
      ++ average_ids (average_window p.moving_average) (series_codes p.group.series)

  ids-chart_option : (p : PanelProps W) → ids_of (chart_option p) ≡ map string (chart_ids p)
  unfolding ids_of chart_option property text_eq items_of series_values
  ids-chart_option p =
      ap (map (property (codes "id"))) (entries-values (mains ++ averages))
      ∙ map-append (property (codes "id")) mains averages
      ∙ ap (λ xs. xs ++ map (property (codes "id")) averages)
          (main_ids p.style p.smooth p.group.series)
      ∙ ap (map string (series_codes p.group.series) ++◌) (average_all_ids window p.group.series)
      ∙ sym (
          map-append string (series_codes p.group.series)
            (average_ids window (series_codes p.group.series)))
    where
      window : ℕ
      window = average_window p.moving_average

      mains : List (Value Formatter W)
      mains = map (λ s. main_option (main_series p.style p.smooth s)) p.group.series

      averages : List (Value Formatter W)
      averages = map average_option (average_all window p.group.series)

AreApart-average :
    (ids : List Text) → AreApart ids → AreApart (map (λ code. code ++ codes "-average") ids)
AreApart-average [] h = tt
AreApart-average (id ∷ ids) h = (apart ids h.0, AreApart-average ids h.1)
  where
    apart :
        (others : List Text)
        → All (λ o. id ≢ o) others
        → All (λ o. id ++ codes "-average" ≢ o) (map (λ code. code ++ codes "-average") others)
    apart [] k = tt
    apart (o ∷ os) k =
        (λ same. k.0 (append_cancel_right id o (codes "-average") same), apart os k.1)

no_average-apart :
    (id : Text)
    → IsNoAverage id
    → (ids : List Text) → All (λ o. id ≢ o) (map (λ code. code ++ codes "-average") ids)
no_average-apart id h [] = tt
no_average-apart id h (o ∷ os) = (h o, no_average-apart id h os)

AreApart-average_ids :
    (window : ℕ) (ids : List Text)
    → AreApart ids
    → All IsNoAverage ids
    → AreApart (ids ++ average_ids window ids)
unfolding average_ids
AreApart-average_ids window ids h k = elim (Bool-cases (ltb 0 window)) [
  | inl e ↦ rw e (
      Ordered-append _ ids _ h (AreApart-average ids h)
        (All-imp _ _ ids (λ id free. no_average-apart id free ids) k))
  | inr e ↦ rw (e, append-nil) h
]

module _ {W : Type 0} where
  charts-apart :
      (charts : List (ChartGroup W))
      → AreApart (codes_of charts)
      → All (λ c. AreApart (series_codes c.series)) charts
  charts-apart [] h = tt
  charts-apart (c ∷ cs) h = (
    Ordered-append_left _ (series_codes c.series) (codes_of cs) h,
    charts-apart cs (Ordered-append_right _ (series_codes c.series) (codes_of cs) h),
  )

  charts-free :
      (charts : List (ChartGroup W))
      → All IsNoAverage (codes_of charts)
      → All (λ c. All IsNoAverage (series_codes c.series)) charts
  charts-free [] h = tt
  charts-free (c ∷ cs) h = (
    All-append_left _ (series_codes c.series) (codes_of cs) h,
    charts-free cs (All-append_right _ (series_codes c.series) (codes_of cs) h),
  )

  module _ ⦃n : Number W⦄ ⦃d : Dates⦄ where
    -- In every chart of observations with plain codes and units, whatever the controls say, the
    -- identifiers of the option's series are the codes of the chart's series and, where a rolling
    -- average is on, each code with "-average" behind it, and no two of them are equal, if no code of
    -- a series ends in "-average".
    pub chart_option-ids :
        (items : List Observation) (instruments : List Instrument) (layout : Layout)
        (p : Preferences) {charts : List (ChartGroup W)}
        → All IsPlainObservation items
        → create_chart_groups items instruments p.metric layout ≡ returns charts
        → All IsNoAverage (codes_of charts)
        → All
            (λ c.
              (ids_of (chart_option (panel_props p c)) ≡ map string (chart_ids (panel_props p c)))
              × Ordered (λ a b. a ≢ b) (chart_ids (panel_props p c)))
            charts
    unfolding panel_props
    chart_option-ids items instruments layout p {charts = charts} plain returned free =
        let (drawn, same, contract) =
          create_chart_groups-Draws W items instruments p.metric layout plain in
        let once =
          subst (λ cs. AreApart (codes_of cs)) (returns-inj (sym same ∙ returned)) contract.once in
        All-zip _ _ _ charts
          (λ c apart no. (
            ids-chart_option (panel_props p c),
            AreApart-average_ids (average_window p.moving_average) (series_codes c.series) apart no,
          ))
          (charts-apart charts once) (charts-free charts free)
