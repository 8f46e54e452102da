-- ===== src/Chart/Option/Controls.antt =====
-- The grid, the legend, the tooltip, the toolbox and the zoom of the option.
use push_and_pray.Prelude.{true, false, [], ◌∷◌, ◌++◌, map}
use push_and_pray.Prelude.Text.{codes}
use push_and_pray.Js.Value.{Value, boolean, string, function, obj, arr, whole, str}
use push_and_pray.Types.{Metric, ChartGroup}
use push_and_pray.Chart.Options.{legend}
use push_and_pray.Chart.Option.Series.{Formatter, tooltip_formatter}

module _ {W : Type 0} where
  -- `{ color, type: "dashed" }`
  abbrev dashed_line : Value Formatter W
  dashed_line = obj (("color", str "#6e8077") ∷ ("type", str "dashed") ∷ [])

  unfoldable pub grid_option : Value Formatter W
  grid_option = obj (
      ("top", whole 72)
      ∷ ("left", whole 72)
      ∷ ("right", whole 34)
      ∷ ("bottom", whole 82)
      ∷ ("containLabel", boolean false)
      ∷ [])

  unfoldable pub legend_option : ChartGroup W → Value Formatter W
  unfolding legend
  legend_option group = obj (
      ("top", whole 18)
      ∷ ("left", whole 18)
      ∷ ("icon", str "roundRect")
      ∷ ("itemWidth", whole 18)
      ∷ ("itemHeight", whole 3)
      ∷ ("itemGap", whole 24)
      ∷ (
        "textStyle",
        obj (("color", str "#b5c0ba") ∷ ("fontSize", whole 11) ∷ ("fontWeight", whole 600) ∷ []),
      )
      ∷ ("data", arr (map string (legend group)))
      ∷ [])

  unfoldable pub tooltip_option : Metric → Value Formatter W
  tooltip_option metric = obj (
      ("trigger", str "axis")
      ∷ ("confine", boolean true)
      ∷ ("backgroundColor", str "rgba(9, 14, 12, .96)")
      ∷ ("borderColor", str "#33413b")
      ∷ ("borderWidth", whole 1)
      ∷ ("padding", whole 14)
      ∷ ("textStyle", obj (("color", str "#edf2ee") ∷ []))
      ∷ (
        "axisPointer",
        obj (
            ("type", str "cross")
            ∷ ("snap", boolean true)
            ∷ ("lineStyle", dashed_line)
            ∷ ("crossStyle", dashed_line)
            ∷ ("label", obj (("color", str "#edf2ee") ∷ ("backgroundColor", str "#26322d") ∷ []))
            ∷ []),
      )
      ∷ ("formatter", function (tooltip_formatter metric))
      ∷ [])

  unfoldable pub toolbox_option : ChartGroup W → Value Formatter W
  toolbox_option group = obj (
      ("top", whole 14)
      ∷ ("right", whole 18)
      ∷ ("itemSize", whole 15)
      ∷ ("iconStyle", obj (("borderColor", str "#829189") ∷ []))
      ∷ ("emphasis", obj (("iconStyle", obj (("borderColor", str "#de8051") ∷ [])) ∷ []))
      ∷ (
        "feature",
        obj (
            (
              "dataZoom",
              obj (
                  ("yAxisIndex", str "none")
                  ∷ ("title", obj (("zoom", str "Zoom") ∷ ("back", str "Back") ∷ []))
                  ∷ []),
            )
            ∷ ("restore", obj (("title", str "Reset") ∷ []))
            ∷ (
              "saveAsImage",
              obj (
                  ("title", str "Export PNG")
                  ∷ ("name", string (codes "petroscope-" ++ group.key))
                  ∷ ("backgroundColor", str "#101815")
                  ∷ ("pixelRatio", whole 2)
                  ∷ []),
            )
            ∷ []),
      )
      ∷ [])

  unfoldable pub zoom_option : Value Formatter W
  zoom_option = arr (
      obj (("type", str "inside") ∷ ("filterMode", str "none") ∷ ("throttle", whole 50) ∷ [])
      ∷ obj (
          ("type", str "slider")
          ∷ ("height", whole 22)
          ∷ ("bottom", whole 22)
          ∷ ("borderColor", str "transparent")
          ∷ ("backgroundColor", str "#111a17")
          ∷ ("fillerColor", str "rgba(222, 128, 81, .18)")
          ∷ (
            "dataBackground",
            obj (
                ("lineStyle", obj (("color", str "#56675f") ∷ []))
                ∷ ("areaStyle", obj (("color", str "#26342e") ∷ []))
                ∷ []),
          )
          ∷ (
            "selectedDataBackground",
            obj (
                ("lineStyle", obj (("color", str "#de8051") ∷ []))
                ∷ ("areaStyle", obj (("color", str "rgba(222, 128, 81, .22)") ∷ []))
                ∷ []),
          )
          ∷ ("handleStyle", obj (("color", str "#de8051") ∷ ("borderColor", str "#de8051") ∷ []))
          ∷ ("moveHandleStyle", obj (("color", str "#87968f") ∷ []))
          ∷ ("textStyle", obj (("color", str "#78877f") ∷ ("fontSize", whole 9) ∷ []))
          ∷ [])
      ∷ [])
