-- ===== src/Checks/ViewWitnesses.antt =====
-- The theorems on what App.tsx computes from its state at concrete inputs.
use mathlib.Core.List.{Perm}
use mathlib.Core.Quot
use push_and_pray.Prelude.{
  List, ℕ, ◌⊎◌, Any, ◌≡◌, refl, min, true, false, none, some, [], ◌∷◌, ◌++◌, map, arith, length,
  All, Ordered,
}
use push_and_pray.Prelude.Int.{pos}
use push_and_pray.Prelude.Text.{text_eq, codes, is_empty}
use push_and_pray.Js.Eq.{text_key}
use push_and_pray.Types.{
  RangeValue, Metric, Layout, ChartStyle, Scale, MovingAverage, desc, rows_25, LoadState,
}
use push_and_pray.Types.{Observation}
use push_and_pray.Platform.Samples.{decimal_dates, whole_numbers, observation, rows}
use push_and_pray.Checks.Samples.{market, stored, live, stranded}
use push_and_pray.Api.{fulfilled}
use push_and_pray.Js.Outcome.{returns}
use push_and_pray.Js.Object.{Object}
use push_and_pray.Data.Unique.{scheduled}
use push_and_pray.Data.Points.{percent_change}
use push_and_pray.App.View.Cards.{delta_for, rows_or_throw}
use push_and_pray.App.View.Cards.Delta.{AreSimultaneous, IsBeforeNewest, delta_for-cases}
use push_and_pray.App.View.SelectionSet.{Selection, toggle, toggle-toggle, visible-toggled_twice}
use push_and_pray.Data.Unique.{happened}
use push_and_pray.App.Session.{default_preferences, updated, refresh_settled, step}
use push_and_pray.Types.Texts.{limit_rows}
use push_and_pray.App.View.{toggle_instrument, visible, table_of}
use push_and_pray.App.View.Table.{HasTime, InOrder, hidden_rows, table_of-Ordered}
use push_and_pray.App.View.Selection.{refresh_settled-visible-none}
use push_and_pray.App.View.Controls.{
  active, range_buttons, metric_buttons, layout_buttons, style_buttons, scale_buttons,
  average_buttons, buttons-active,
}
use push_and_pray.App.View.Instruments.{
  checks, after, turned, select_all, clear, checks-instrument_list,
}

refresh_settled-visible-none_example :
    let t = step (refresh_settled (fulfilled market) (pos 9)) stranded in
    (t.load_state ≡ LoadState.ready) × (t.observations ≡ rows) × (visible t ≡ [])
unfolding default_preferences stranded
refresh_settled-visible-none_example =
    refresh_settled-visible-none market (pos 9) stranded refl (omega arith) refl

rows-HasTime : All HasTime rows
unfolding happened is_empty
rows-HasTime = (tt, (tt, (tt, (tt, tt))))

table_of-Ordered_example :
    (length (table_of desc rows_25 rows) ≡ min (limit_rows rows_25) (length rows))
    × Ordered (InOrder desc) (table_of desc rows_25 rows)
    × All (λ x. All (InOrder desc x) (hidden_rows desc rows_25 rows)) (table_of desc rows_25 rows)
    × Perm (table_of desc rows_25 rows ++ hidden_rows desc rows_25 rows) rows
table_of-Ordered_example = table_of-Ordered desc rows_25 rows rows-HasTime

buttons-active_example :
    (active (range_buttons stored) ≡ RangeValue.days_30 ∷ [])
    × (active (metric_buttons stored) ≡ Metric.price ∷ [])
    × (active (layout_buttons stored) ≡ Layout.compare ∷ [])
    × (active (style_buttons stored) ≡ ChartStyle.line ∷ [])
    × (active (scale_buttons stored) ≡ Scale.linear ∷ [])
    × (active (average_buttons stored) ≡ MovingAverage.off ∷ [])
unfolding stored
buttons-active_example = buttons-active stored

checks-instrument_list_example :
    (checks (after (toggle_instrument live (codes "WTI_USD_BBL")) live)
      ≡ map (turned live (codes "WTI_USD_BBL")) live.instruments)
    × (checks (after (select_all live) live) ≡ map (λ i. true) live.instruments)
    × (checks (after clear live) ≡ map (λ i. false) live.instruments)
unfolding live
checks-instrument_list_example = checks-instrument_list live (codes "WTI_USD_BBL") refl

-- A history in which all rows are of one instrument.
abbrev history_of_rows : Object (List Observation)
history_of_rows = (codes "WTI_USD_BBL", rows) ∷ []

delta_for-cases_example :
    ((delta_for ℕ (observation "WTI_USD_BBL" "70" "200" "210") history_of_rows ≡ returns none)
      × AreSimultaneous rows)
    ⊎ ((x : Observation) × (delta_for ℕ (observation "WTI_USD_BBL" "70" "200" "210") history_of_rows
          ≡ returns (
              some (percent_change (whole_numbers.read (codes "70")) (whole_numbers.read x.price))))
        × Any (λ r. r ≡ x) rows
        × IsBeforeNewest x rows)
unfolding rows_or_throw scheduled happened is_empty text_eq
delta_for-cases_example =
    delta_for-cases ℕ (observation "WTI_USD_BBL" "70" "200" "210") history_of_rows refl
      ((tt, tt), ((tt, tt), ((tt, tt), ((tt, tt), tt))))

abbrev a_selection : Selection
a_selection = Quot.mk (codes "B" ∷ codes "A" ∷ [])

toggle-toggle_example :
    (toggle (codes "A") (toggle (codes "A") a_selection) ≡ a_selection)
    × (toggle (codes "A") (toggle (codes "B") a_selection)
        ≡ toggle (codes "B") (toggle (codes "A") a_selection))
toggle-toggle_example = toggle-toggle (codes "A") (codes "B") a_selection

visible-toggled_twice_example :
    let t = step (updated (toggle_instrument live (codes "WTI_USD_BBL"))) live in
    visible (step (updated (toggle_instrument t (codes "WTI_USD_BBL"))) t) ≡ visible live
unfolding live
visible-toggled_twice_example = visible-toggled_twice live (codes "WTI_USD_BBL") refl
