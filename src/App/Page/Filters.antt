-- ===== src/App/Page/Filters.antt =====
-- The controls beside the charts.
use push_and_pray.Prelude.{Bool, true, false, List, [], ◌∷◌, ◌++◌, map, if◌then◌else◌}
use push_and_pray.Prelude.Text.{codes, text_eq}
use push_and_pray.Types.{Preferences}
use push_and_pray.Types.Texts.{metric_text}
use push_and_pray.Markup.{
  Node, text, named, flag, on_click, on_change, on_check, el, words, named_by, class, class_if,
  series_style, icon,
}
use push_and_pray.App.Session.{
  Session, Event, updated, Update, set_range, set_metric, set_layout, set_style, set_scale,
  set_moving_average, set_smooth,
}
use push_and_pray.App.View.Controls.{
  Button, range_buttons, metric_buttons, layout_buttons, style_buttons, scale_buttons,
  average_buttons,
}
use push_and_pray.App.View.Instruments.{InstrumentBox, instrument_list, select_all, clear}

module _ {C : Type 0} where
  -- A button of `Segmented`, whose choice makes an update.
  unfoldable pub button_node : {T : Type 0} → (T → Update) → Button T → Node Event C
  button_node change b =
      el "button"
        (named_by "type" "button"
          ∷ class_if b.is_active "active"
          ∷ on_click (updated (change b.on_click))
          ∷ flag (codes "disabled") b.is_disabled
          ∷ [])
        (text b.label ∷ [])

  unfoldable pub segmented_node :
      {T : Type 0} → (T → Update) → Bool → List (Button T) → Node Event C
  unfolding button_node
  segmented_node change disabled buttons =
      el "div"
        (named (codes "className")
            (codes "segmented " ++ (if disabled then codes "disabled" else []))
          ∷ [])
        (map (button_node change) buttons)

  -- A fieldset with its legend.
  unfoldable pub fieldset : List (Node Event C) → Node Event C → Node Event C
  fieldset legend control = el "fieldset" [] (el "legend" [] legend ∷ control ∷ [])

  unfoldable pub box_node : InstrumentBox → Node Event C
  box_node b = el "label" (series_style b.color ∷ []) (
      el "input"
        (named_by "type" "checkbox"
          ∷ flag (codes "checked") b.is_checked
          ∷ on_change (updated b.on_change)
          ∷ [])
        []
      ∷ el "i" [] []
      ∷ el "span" [] (el "strong" [] (text b.name ∷ []) ∷ el "small" [] (text b.unit ∷ []) ∷ [])
      ∷ [])

  unfoldable pub instruments_fieldset : Session → Node Event C
  unfolding box_node instrument_list select_all clear
  instruments_fieldset s = el "fieldset" [] (
      el "legend" [] (icon "Layers3" 14 ∷ words " Instruments" ∷ [])
      ∷ el "div" (class "instrument-actions" ∷ []) (
          el "button" (named_by "type" "button" ∷ on_click (updated (select_all s)) ∷ [])
            (words "Select all" ∷ [])
          ∷ el "button" (named_by "type" "button" ∷ on_click (updated clear) ∷ [])
              (words "Clear" ∷ [])
          ∷ [])
      ∷ el "div" (class "instrument-list" ∷ []) (map box_node (instrument_list s))
      ∷ [])

  unfoldable pub smooth_switch : Preferences → Node Event C
  smooth_switch p = el "label" (class "switch-row" ∷ []) (
      el "span" [] (
        el "strong" [] (words "Smooth curve" ∷ [])
        ∷ el "small" [] (words "Visual interpolation only" ∷ [])
        ∷ [])
      ∷ el "input"
          (named_by "type" "checkbox"
            ∷ flag (codes "checked") p.smooth
            ∷ on_check (updated (set_smooth true)) (updated (set_smooth false))
            ∷ [])
          []
      ∷ el "i" [] []
      ∷ [])

  unfoldable pub filters : Session → Node Event C
  unfolding instruments_fieldset fieldset segmented_node smooth_switch range_buttons metric_buttons
      layout_buttons style_buttons scale_buttons average_buttons
  filters s =
      let p = s.preferences in
      el "aside" (class "filters" ∷ []) (
        el "div" (class "filters-title" ∷ [])
          (icon "SlidersHorizontal" 17 ∷ el "strong" [] (words "View controls" ∷ []) ∷ [])
        ∷ instruments_fieldset s
        ∷ fieldset (icon "CalendarRange" 14 ∷ words " Time range" ∷ [])
            (segmented_node set_range false (range_buttons p))
        ∷ fieldset (icon "BarChart3" 14 ∷ words " Value" ∷ [])
            (segmented_node set_metric false (metric_buttons p))
        ∷ fieldset (words "Layout" ∷ []) (segmented_node set_layout false (layout_buttons p))
        ∷ fieldset (words "Rendering" ∷ []) (segmented_node set_style false (style_buttons p))
        ∷ fieldset (words "Scale" ∷ []) (
            segmented_node set_scale (text_eq (metric_text p.metric) (codes "change"))
              (scale_buttons p))
        ∷ fieldset (words "Rolling average" ∷ [])
            (segmented_node set_moving_average false (average_buttons p))
        ∷ smooth_switch p
        ∷ [])
