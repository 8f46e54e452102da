-- ===== src/Chart/Tooltip/Laws.antt =====
-- Which points the tooltip shows, and under which date.
use push_and_pray.Prelude.{
  ◌≡◌, ◌≢◌, refl, sym, ap, true, false, none, some, List, [], ◌∷◌, ◌++◌, arith, Bool-cases,
  Option-cases, inl, inr, All, ℕ,
}
use push_and_pray.Prelude.Text.{Text, is_empty, includes, includes-parts}
use push_and_pray.Types.{SeriesPoint}
use push_and_pray.Platform.{Dates}
use push_and_pray.Format.{date_number, format_date_time}
use push_and_pray.Data.Unique.{happened}
use push_and_pray.Chart.Options.{Datum, datum, average_mark, average_name, average_name-includes}
use push_and_pray.Chart.Tooltip.{TooltipPoint, is_main, date_shown, shown_points}

module _ {W : Type 0} where
  -- A point of a moving average's series.
  abbrev pub IsAverage : TooltipPoint W → Type 0
  IsAverage p = (name : Text) × (window : ℕ) × (p.series_name ≡ some (average_name name window))

  -- A point of a series whose name, if it has one, does not hold the mark of an average.
  abbrev pub IsUnmarked : TooltipPoint W → Type 0
  IsUnmarked p =
      (name before behind : Text)
      → p.series_name ≡ some name
      → name ≢ before ++ (average_mark ++ behind)

  main-of_unmarked : (p : TooltipPoint W) → IsUnmarked p → is_main p.series_name ≡ true
  main-of_unmarked p h = elim (Option-cases p.series_name) [
    | inl e ↦ rw e refl
    | inr (name, e) ↦ elim (Bool-cases (includes average_mark name)) [
      | inl found ↦
          let (before, behind, k) = includes-parts average_mark name found in
          absurd (h name before behind e k)
      | inr absent ↦ rw (e, absent) refl
    ]
  ]

  -- The points that have data.
  pub with_data : List (TooltipPoint W) → List (TooltipPoint W × Datum W)
  with_data [] = []
  with_data (p ∷ ps) = elim p.datum [ none ↦ with_data ps | some x ↦ (p, x) ∷ with_data ps ]

  shown_points-averages : (ps : List (TooltipPoint W)) → All IsAverage ps → shown_points ps ≡ []
  unfolding shown_points
  shown_points-averages [] h = refl
  shown_points-averages (p ∷ ps) ((name, window, named), h) =
      let hidden : is_main p.series_name ≡ false = rw (named, average_name-includes name window) in
      elim (Option-cases p.datum) [
        | inl e ↦ rw (e, shown_points) (shown_points-averages ps h)
        | inr (x, e) ↦ rw (e, shown_points) (rw hidden (shown_points-averages ps h))
      ]

  -- The tooltip has a row for each point that has data of a series whose name does not hold "· MA"
  -- anywhere, in their order, and none for the points behind them of series that are named as moving
  -- averages.
  pub shown_points-append :
      (main averages : List (TooltipPoint W))
      → All IsUnmarked main
      → All IsAverage averages
      → shown_points (main ++ averages) ≡ with_data main
  unfolding shown_points with_data
  shown_points-append [] averages h k = shown_points-averages averages k
  shown_points-append (p ∷ ps) averages h k =
      let named = main-of_unmarked p h.0 in
      ground (arith, named, shown_points-append ps averages h.1 k)

  module _ ⦃d : Dates⦄ where
    -- The date in the tooltip is the time at which the point stands on the axis, for a point
    -- whose time is that of its observation.
    pub date_shown-time :
        (p : SeriesPoint W)
        → p.time ≡ happened p.observation
        → format_date_time (date_shown (datum p)) ≡ format_date_time (date_number p.time)
    unfolding format_date_time happened datum
    date_shown-time p timed = elim (Bool-cases (is_empty p.observation.source_observed_at)) [
      | inl e ↦ rw e
      | inr e ↦
          let same : p.time ≡ d.parse_date p.observation.source_observed_at =
            rw (e, happened) at timed in
          rw e (ap (λ t. format_date_time (date_number t)) (sym same))
    ]
