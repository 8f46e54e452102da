-- ===== src/Chart/Option/Axes.antt =====
-- The axes of the option.
use push_and_pray.Prelude.{true, false, [], ◌∷◌, ◌++◌}
use push_and_pray.Prelude.Text.{Text, codes}
use push_and_pray.Js.Value.{Value, boolean, string, function, obj, arr, whole, str}
use push_and_pray.Types.{Metric, price, change, Scale}
use push_and_pray.Platform.{Number}
use push_and_pray.Format.{amount, format_price}
use push_and_pray.Chart.Options.{AxisType, log_axis, value_axis, axis_type, axis_name}
use push_and_pray.Chart.Option.Series.{Formatter, axis_formatter}

unfoldable pub axis_type_text : AxisType → Text
axis_type_text log_axis = codes "log"
axis_type_text value_axis = codes "value"

-- The `formatter` of the y axis.
unfoldable pub axis_label : {W : Type 0} → ⦃n : Number W⦄ → Metric → W → Text
unfolding format_price
axis_label ⦃n = n⦄ change value = n.to_fixed 1 value ++ codes "%"
axis_label price value = format_price (amount value)

module _ {W : Type 0} where
  unfoldable pub x_axis : Value Formatter W
  x_axis = obj (
      ("type", str "time")
      ∷ ("boundaryGap", arr (whole 0 ∷ whole 0 ∷ []))
      ∷ ("axisLine", obj (("lineStyle", obj (("color", str "#34413b") ∷ [])) ∷ []))
      ∷ ("axisTick", obj (("show", boolean false) ∷ []))
      ∷ (
        "axisLabel",
        obj (
            ("color", str "#7f8d86")
            ∷ ("hideOverlap", boolean true)
            ∷ ("fontSize", whole 10)
            ∷ ("margin", whole 14)
            ∷ []),
      )
      ∷ (
        "splitLine",
        obj (
            ("show", boolean true)
            ∷ (
              "lineStyle",
              obj (("color", str "rgba(147, 166, 157, .08)") ∷ ("type", str "dashed") ∷ []),
            )
            ∷ []),
      )
      ∷ [])

  unfoldable pub y_axis : Metric → Scale → Value Formatter W
  unfolding axis_type axis_type_text axis_name
  y_axis metric scale = obj (
      ("type", string (axis_type_text (axis_type metric scale)))
      ∷ ("scale", boolean true)
      ∷ ("name", string (axis_name metric))
      ∷ (
        "nameTextStyle",
        obj (
            ("color", str "#718078")
            ∷ ("align", str "right")
            ∷ ("padding", arr (whole 0 ∷ whole 0 ∷ whole 8 ∷ whole 0 ∷ []))
            ∷ ("fontSize", whole 10)
            ∷ []),
      )
      ∷ ("axisLine", obj (("show", boolean false) ∷ []))
      ∷ ("axisTick", obj (("show", boolean false) ∷ []))
      ∷ (
        "axisLabel",
        obj (
            ("color", str "#8a9891")
            ∷ ("fontSize", whole 10)
            ∷ ("formatter", function (axis_formatter metric))
            ∷ []),
      )
      ∷ (
        "splitLine",
        obj (
            (
              "lineStyle",
              obj (("color", str "rgba(147, 166, 157, .12)") ∷ ("type", str "dashed") ∷ []),
            )
            ∷ []),
      )
      ∷ [])
