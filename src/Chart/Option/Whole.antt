-- ===== src/Chart/Option/Whole.antt =====
-- The whole option, and the card around the chart.
use push_and_pray.Prelude.{[], ◌∷◌, ◌++◌, map}
use push_and_pray.Prelude.Text.{codes}
use push_and_pray.Js.Number.{number_text}
use push_and_pray.Js.Value.{Value, obj, arr, whole, str}
use push_and_pray.Platform.{Number}
use push_and_pray.Markup.{Node, text, named, el, named_by, class}
use push_and_pray.Chart.Options.{palette, count_points}
use push_and_pray.Chart.Option.Series.{Formatter, color_value, series_values}
use push_and_pray.Chart.Option.Axes.{x_axis, y_axis}
use push_and_pray.Chart.Option.Controls.{
  grid_option, legend_option, tooltip_option, toolbox_option, zoom_option,
}
use push_and_pray.Chart.Props.{PanelProps}

module _ {W : Type 0} where
  unfoldable pub chart_option : ⦃n : Number W⦄ → PanelProps W → Value Formatter W
  unfolding grid_option legend_option tooltip_option toolbox_option x_axis y_axis zoom_option
      series_values palette
  chart_option p = obj (
      ("animationDuration", whole 550)
      ∷ ("animationEasing", str "cubicOut")
      ∷ ("backgroundColor", str "transparent")
      ∷ ("color", arr (map color_value (palette p.group)))
      ∷ ("grid", grid_option)
      ∷ ("legend", legend_option p.group)
      ∷ ("tooltip", tooltip_option p.metric)
      ∷ ("toolbox", toolbox_option p.group)
      ∷ ("xAxis", x_axis)
      ∷ ("yAxis", y_axis p.metric p.scale)
      ∷ ("dataZoom", zoom_option)
      ∷ ("series", arr (series_values p.group p.style p.smooth p.moving_average))
      ∷ [])

  -- What the panel renders; the `ref` of the last element is the one the effect draws in.
  unfoldable pub chart_card : {E C : Type 0} → PanelProps W → Node E C
  unfolding number_text count_points
  chart_card p = el "article" (class "chart-card" ∷ []) (
      el "header" (class "chart-card-heading" ∷ []) (
        el "div" [] (el "p" [] (text p.group.unit ∷ []) ∷ el "h3" [] (text p.group.title ∷ []) ∷ [])
        ∷ el "span" [] (text (number_text (count_points 0 p.group.series) ++ codes " points") ∷ [])
        ∷ [])
      ∷ el "div"
          (class "echart"
            ∷ named_by "role" "img"
            ∷ named (codes "aria-label") (codes "Графік: " ++ p.group.title)
            ∷ [])
          []
      ∷ [])
