-- ===== src/Types/Body.antt =====
-- The JSON value of the preferences.
use push_and_pray.Prelude.{Option, none, some, List, [], ◌∷◌}
use push_and_pray.Prelude.Text.{Text, codes}
use push_and_pray.Types.{
  Preferences, Json, null, flag, number, text, array, object, Items, nil, cons, end, field,
}
use push_and_pray.Types.Texts.{
  range_text, metric_text, layout_text, style_text, order_text, limit_text, scale_text,
  average_text,
}

unfoldable pub texts_json : List Text → Items
texts_json [] = nil
texts_json (t ∷ ts) = cons (text t) (texts_json ts)

unfoldable pub selected_json : Option (List Text) → Json
unfolding texts_json
selected_json none = null
selected_json (some ts) = array (texts_json ts)

-- What `JSON.stringify(preferences)` is the text of.
unfoldable pub preferences_json : Preferences → Json
unfolding selected_json range_text metric_text layout_text style_text order_text limit_text
    scale_text average_text
preferences_json p = object (
    field (codes "selected") (selected_json p.selected) (
      field (codes "range") (text (range_text p.range)) (
        field (codes "metric") (text (metric_text p.metric)) (
          field (codes "layout") (text (layout_text p.layout)) (
            field (codes "style") (text (style_text p.style)) (
              field (codes "table_order") (text (order_text p.table_order)) (
                field (codes "table_limit") (number (limit_text p.table_limit)) (
                  field (codes "scale") (text (scale_text p.scale)) (
                    field (codes "moving_average") (text (average_text p.moving_average))
                      (field (codes "smooth") (flag p.smooth) end))))))))))
