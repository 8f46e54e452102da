-- ===== src/Chart/Tooltip.antt =====
-- The tooltip's `formatter`.
pub mod Laws
pub mod Markup
use push_and_pray.Prelude.{
  ℕ, ◌≡◌, refl, ◌≢◌, ap, ◌∙◌, Bool, true, false, not, ◌&&◌, Option, none, some, List, [], ◌∷◌, ◌++◌,
  map, arith, if◌then◌else◌, Bool-cases, inl, inr, select, All,
}
use push_and_pray.Prelude.Text.{Text, codes, is_empty, includes, join}
use push_and_pray.Js.Outcome.{Outcome, returns, throws, ◌>>=◌}
use push_and_pray.Types.{Metric, price, change}
use push_and_pray.Platform.{Dates, Number}
use push_and_pray.Format.{
  amount, format_price, format_percent, DateValue, date_text, date_number, format_date_time,
}
use push_and_pray.Chart.Escape.{escape_html, escape_optional}
use push_and_pray.Chart.Options.{Datum, average_mark}

pub record TooltipPoint (W : Type 0) : Type 0 where
  pub marker : Option Text
  pub series_name : Option Text
  pub datum : Option (Datum W)

-- A line break of the template, and the blanks of the next line.
abbrev newline_12 : Text
newline_12 = 10 ∷ codes "            "

abbrev newline_16 : Text
newline_16 = 10 ∷ codes "                "

-- `!item.seriesName?.includes("· MA")`
abbrev is_main : Option Text → Bool
is_main none = true
is_main (some name) = not (includes average_mark name)

abbrev text_or_empty : Option Text → Text
text_or_empty none = []
text_or_empty (some t) = t

-- `first[4] || first[0]`
abbrev pub date_shown : {W : Type 0} → Datum W → DateValue
date_shown first =
    if is_empty first.observed_at then date_number first.time else date_text first.observed_at

module _ {W : Type 0} where
  -- `parameters.find((item) => item.data)?.data`
  unfoldable pub first_datum : List (TooltipPoint W) → Option (Datum W)
  first_datum [] = none
  first_datum (p ∷ ps) = elim p.datum [ some x ↦ some x | none ↦ first_datum ps ]

  -- The points of main series that have data, each with its data.
  unfoldable pub shown_points : List (TooltipPoint W) → List (TooltipPoint W × Datum W)
  unfolding includes
  shown_points [] = []
  shown_points (p ∷ ps) = elim p.datum [
    | none ↦ shown_points ps
    | some x ↦ if is_main p.series_name then (p, x) ∷ shown_points ps else shown_points ps
  ]

  -- The text around the rows.
  unfoldable pub tooltip_frame : Datum W → Text → Text → Text
  unfolding escape_html
  tooltip_frame first time rows =
      codes "<div class=\"chart-tip\">"
      ++ (newline_12
          ++ (codes "<time>"
              ++ (escape_html time
                  ++ (codes " UTC</time>"
                      ++ (newline_12
                          ++ (rows
                              ++ (newline_12
                                  ++ (codes "<small>Source: "
                                      ++ (escape_html first.source
                                          ++ (codes "</small>"
                                              ++ (10 ∷ codes "          </div>")))))))))))

  module _ ⦃n : Number W⦄ where
    unfoldable pub shown_value : Metric → Datum W → Text
    unfolding format_percent format_price
    shown_value change x = format_percent x.value
    shown_value price x = format_price (amount x.value) ++ codes " USD"

    unfoldable pub tooltip_row : Metric → TooltipPoint W × Datum W → Text
    unfolding shown_value escape_html escape_optional
    tooltip_row metric (p, x) =
        codes "<div class=\"chart-tip-row\">"
        ++ (newline_16
            ++ (codes "<span>"
                ++ (text_or_empty p.marker
                    ++ (escape_optional p.series_name
                        ++ (codes "</span>"
                            ++ (newline_16
                                ++ (codes "<strong>"
                                    ++ (escape_html (shown_value metric x)
                                        ++ (codes "</strong>"
                                            ++ (10 ∷ codes "              </div>"))))))))))

    module _ ⦃d : Dates⦄ where
      unfoldable pub tooltip : Metric → List (TooltipPoint W) → Outcome Text
      unfolding first_datum shown_points tooltip_row tooltip_frame join format_date_time
      tooltip metric parameters = elim (first_datum parameters) [
        | none ↦ returns []
        | some first ↦ do
          time ← format_date_time (date_shown first)
          returns (
              tooltip_frame first time
                (join [] (map (tooltip_row metric) (shown_points parameters))))
      ]
