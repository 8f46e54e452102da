-- ===== src/Checks/ChartWitnesses.antt =====
-- The theorems on ChartPanel.tsx at concrete inputs.
use push_and_pray.Prelude.{
  Bool, true, false, sym, ◌∙◌, List, map, ◌+◌, ℕ, ◌≡◌, refl, none, some, [], ◌∷◌, ◌++◌, arith, ap,
  ◌≢◌, All, Ordered,
}
use push_and_pray.Prelude.Text.{join, Text, codes, includes, includes-append, is_empty}
use push_and_pray.Types.{
  Observation, Preferences, SeriesPoint, Series, ChartGroup, price, compare, over_3,
}
use push_and_pray.Platform.Samples.{decimal_dates, whole_numbers, rows, instruments, observation}
use push_and_pray.Js.Outcome.{Outcome, returns, throws}
use push_and_pray.Js.Object.{is_inherited, push_own}
use push_and_pray.Js.Value.{string}
use push_and_pray.Data.Groups.{group_into}
use push_and_pray.Data.Charts.{create_chart_groups}
use push_and_pray.App.Session.{default_preferences}
use push_and_pray.App.Page.Analysis.{panel_props}
use push_and_pray.Chart.Option.Whole.{chart_option}
use push_and_pray.Chart.Option.Ids.{IsNoAverage, ids_of, chart_ids, chart_option-ids}
use push_and_pray.Format.{date_number, format_date_time}
use push_and_pray.Data.Unique.{minus, happened}
use push_and_pray.Data.Points.{to_series_points}
use push_and_pray.Chart.Escape.{less, unit_of, escape_html, read_until, read_until-escape_html}
use push_and_pray.Chart.Options.{datum, average_name, average_mark}
use push_and_pray.Chart.Tooltip.{
  TooltipPoint, date_shown, shown_points, first_datum, tooltip_frame, tooltip_row, tooltip,
}
use push_and_pray.Chart.Tooltip.Markup.{tags, row_tags, tags-tooltip}
use push_and_pray.Chart.Tooltip.Laws.{IsUnmarked, with_data, shown_points-append, date_shown-time}
use push_and_pray.Chart.Lifecycle.{new_panel, redraw_all, cleanup, last_of, redraw_all-one}

abbrev markup : Text
markup = codes "<b title=\"x\">A&amp;'B'</b>"

read_until-escape_html_example :
    read_until less 0 (escape_html markup ++ (unit_of less ∷ codes "/b>"))
    ≡ (markup, unit_of less ∷ codes "/b>")
read_until-escape_html_example = read_until-escape_html less markup (codes "/b>")

abbrev a_row : Observation
a_row = observation "WTI_USD_BBL" "70" "200" "210"

abbrev a_point : SeriesPoint ℕ
unfolding happened is_empty
a_point = record { time = happened a_row; value = 70; raw = 70; observation = a_row }

abbrev a_series : Series ℕ
a_series = record {
  code = codes "WTI_USD_BBL";
  name = codes "WTI";
  color = some (codes "#de8051");
  points = to_series_points rows price;
}

abbrev main_point : TooltipPoint ℕ
main_point = record {
  marker = none;
  series_name = some (codes "WTI");
  datum = some (datum a_point);
}

abbrev average_point : TooltipPoint ℕ
average_point = record {
  marker = none;
  series_name = some (average_name (codes "WTI") 3);
  datum = some (datum a_point);
}

wti-IsUnmarked : IsUnmarked main_point
unfolding includes
wti-IsUnmarked name before behind named whole =
    let found : includes average_mark name ≡ true =
      ap (includes average_mark) whole ∙ includes-append before average_mark behind in
    let absent : includes average_mark (codes "WTI") ≡ false = refl in
    let same : codes "WTI" ≡ name = some-inj named in
    false-ne-true (sym absent ∙ ap (includes average_mark) same ∙ found)
  where
    some-inj : {s t : Text} → some s ≡ some t → s ≡ t
    some-inj e = cc

    false-ne-true : ◌≡◌ {A = Bool} false true → ⊥
    false-ne-true e = cc

shown_points-append_example :
    shown_points ((main_point ∷ []) ++ (average_point ∷ [])) ≡ with_data (main_point ∷ [])
shown_points-append_example =
    shown_points-append (main_point ∷ []) (average_point ∷ []) (wti-IsUnmarked, tt)
      ((codes "WTI", 3, refl), tt)

abbrev two_points : List (TooltipPoint ℕ)
two_points = main_point ∷ average_point ∷ []

tags-tooltip_example :
    tags (
      tooltip_frame
        (datum a_point)
        (200 ∷ [])
        (join [] (map (tooltip_row price) (shown_points two_points))))
    ≡ 6 + row_tags (shown_points two_points)
unfolding tooltip first_datum format_date_time datum is_empty a_point
tags-tooltip_example = tags-tooltip price two_points {first = datum a_point} refl refl

date_shown-time_example :
    format_date_time (date_shown (datum a_point)) ≡ format_date_time (date_number a_point.time)
unfolding happened a_point
date_shown-time_example = date_shown-time a_point refl

redraw_all-one_example :
    let p = redraw_all {O = ℕ} new_panel (1 ∷ 2 ∷ 3 ∷ []) in
    (r : ℕ) × (p.charts ≡ (r, last_of 1 (2 ∷ 3 ∷ [])) ∷ [])
    × (p.observers ≡ r ∷ [])
    × ((cleanup p).charts ≡ [])
    × ((cleanup p).observers ≡ [])
redraw_all-one_example = redraw_all-one {O = ℕ} 1 (2 ∷ 3 ∷ [])

-- The charts of some rows.
abbrev charts_or_none : Outcome (List (ChartGroup ℕ)) → List (ChartGroup ℕ)
charts_or_none (returns charts) = charts
charts_or_none throws = []

some_charts : List (ChartGroup ℕ)
unfolding create_chart_groups group_into is_inherited push_own is_empty minus
some_charts = charts_or_none (create_chart_groups rows instruments price compare)

last_unit : Text → ℕ
last_unit [] = 0
last_unit (c ∷ []) = c
last_unit (c ∷ d ∷ s) = last_unit (d ∷ s)

last_unit-average : (t : Text) → last_unit (t ++ codes "-average") ≡ b'e'
unfolding last_unit
last_unit-average [] = refl
last_unit-average (c ∷ []) = refl
last_unit-average (c ∷ d ∷ s) = last_unit-average (d ∷ s)

ends_in_l : (code : Text) → last_unit code ≡ b'L' → IsNoAverage code
ends_in_l code h t same = absurd (omega (arith, h, ap last_unit same, last_unit-average t))

abbrev averaged : Preferences
unfolding default_preferences
averaged = record default_preferences { moving_average = over_3 }

chart_option-ids_example :
    All
      (λ c.
        (ids_of (chart_option (panel_props averaged c))
          ≡ map string (chart_ids (panel_props averaged c)))
        × Ordered (λ a b. a ≢ b) (chart_ids (panel_props averaged c)))
      some_charts
unfolding some_charts is_inherited last_unit averaged
chart_option-ids_example =
    chart_option-ids rows instruments compare averaged
      ((refl, refl), ((refl, refl), ((refl, refl), ((refl, refl), tt)))) refl
      (ends_in_l (codes "WTI_USD_BBL") refl, (ends_in_l (codes "BRENT_USD_BBL") refl, tt))
