-- ===== src/Api/Server/Laws.antt =====
-- What the UI backend makes of the client's requests.
use push_and_pray.Prelude.{
  ◌≡◌, refl, Bool, true, Option, none, some, List, [], ◌∷◌, length, leb, if◌then◌else◌, Bool-cases,
  inl, inr,
}
use push_and_pray.Prelude.Text.{Text}
use push_and_pray.Js.Outcome.{Outcome, returns, throws}
use push_and_pray.Types.{
  RangeValue, days_1, days_7, days_30, days_90, days_180, days_365, all, Metric, price, change,
  Layout, separate, compare, ChartStyle, line, area, points, TableOrder, asc, desc, Scale, linear,
  log, MovingAverage, off, over_3, over_7, TableLimit, rows_25, rows_50, rows_100, rows_250,
  Preferences, Json, flag,
}
use push_and_pray.Types.Texts.{
  range_text, metric_text, layout_text, style_text, order_text, limit_text, scale_text,
  average_text,
}
use push_and_pray.Types.Body.{texts_json, selected_json, preferences_json}
use push_and_pray.Api.{save_preferences_request}
use push_and_pray.Api.Server.{
  member, field_of, choose_string, choose_number, choice_of, ranges, limits, read_texts, at_most_20,
  read_selected, session_preferences, payload,
}

texts_back : (ts : List Text) → read_texts (texts_json ts) ≡ returns ts
unfolding read_texts texts_json
texts_back [] = refl
texts_back (t ∷ ts) = rw (texts_back ts) refl

selected_back :
    (selected : Option (List Text))
    → read_selected (selected_json selected)
      ≡ elim selected [ none ↦ returns none | some ts ↦ at_most_20 ts ]
unfolding read_selected selected_json
selected_back none = refl
selected_back (some ts) = rw (texts_back ts) refl

range_back : (r : RangeValue) → choice_of range_text ranges (range_text r) ≡ returns r
unfolding choice_of range_text
range_back days_1 = refl
range_back days_7 = refl
range_back days_30 = refl
range_back days_90 = refl
range_back days_180 = refl
range_back days_365 = refl
range_back all = refl

metric_back : (m : Metric) → choice_of metric_text (price ∷ change ∷ []) (metric_text m) ≡ returns m
unfolding choice_of metric_text
metric_back price = refl
metric_back change = refl

layout_back :
    (l : Layout) → choice_of layout_text (separate ∷ compare ∷ []) (layout_text l) ≡ returns l
unfolding choice_of layout_text
layout_back separate = refl
layout_back compare = refl

style_back :
    (s : ChartStyle) → choice_of style_text (line ∷ area ∷ points ∷ []) (style_text s) ≡ returns s
unfolding choice_of style_text
style_back line = refl
style_back area = refl
style_back points = refl

order_back : (o : TableOrder) → choice_of order_text (asc ∷ desc ∷ []) (order_text o) ≡ returns o
unfolding choice_of order_text
order_back asc = refl
order_back desc = refl

limit_back : (l : TableLimit) → choice_of limit_text limits (limit_text l) ≡ returns l
unfolding choice_of limit_text
limit_back rows_25 = refl
limit_back rows_50 = refl
limit_back rows_100 = refl
limit_back rows_250 = refl

scale_back : (s : Scale) → choice_of scale_text (linear ∷ log ∷ []) (scale_text s) ≡ returns s
unfolding choice_of scale_text
scale_back linear = refl
scale_back log = refl

average_back :
    (a : MovingAverage)
    → choice_of average_text (off ∷ over_3 ∷ over_7 ∷ []) (average_text a) ≡ returns a
unfolding choice_of average_text
average_back off = refl
average_back over_3 = refl
average_back over_7 = refl

-- The server takes at most twenty codes.
abbrev pub fits : Option (List Text) → Bool
fits none = true
fits (some ts) = leb (length ts) 20

-- The selection that the server takes.
selected_taken :
    (selected : Option (List Text))
    → read_selected (selected_json selected) ≡ (if fits selected then returns selected else throws)
unfolding at_most_20
selected_taken none = selected_back none
selected_taken (some ts) = selected_back (some ts)

-- What the UI backend takes from the body of a save is exactly the preferences that were saved, if
-- these have no selection or select at most twenty codes; it rejects the body of every other save.
-- Of what Pydantic makes of a JSON value for a `bool`, only that it takes a Boolean for itself is
-- supposed.
pub payload-save :
    (to_flag : Json → Outcome Bool)
    → ((b : Bool) → to_flag (flag b) ≡ returns b)
    → (p : Preferences)
    → payload to_flag (save_preferences_request p) ≡ (if fits p.selected then returns p else throws)
unfolding payload save_preferences_request session_preferences preferences_json field_of member
    choose_string choose_number
payload-save to_flag keeps p =
    rw
      (
        selected_taken p.selected,
        range_back p.range,
        metric_back p.metric,
        layout_back p.layout,
        style_back p.style,
        order_back p.table_order,
        limit_back p.table_limit,
        scale_back p.scale,
        average_back p.moving_average,
        keeps p.smooth,
      )
      elim (Bool-cases (fits p.selected)) [ inl e ↦ rw e refl | inr e ↦ rw e refl ]
