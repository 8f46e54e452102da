-- ===== src/Api/Server.antt =====
-- `SessionPreferences` of the UI backend: what it accepts as the body of a save, and what it takes from it.
pub mod Laws
use push_and_pray.Prelude.{
  ℕ, ◌≡◌, refl, Bool, true, false, Option, none, some, List, [], ◌∷◌, length, leb, if◌then◌else◌,
}
use push_and_pray.Prelude.Text.{Text, codes, text_eq}
use push_and_pray.Js.Outcome.{Outcome, returns, throws, ◌>>=◌}
use push_and_pray.Types.{
  RangeValue, days_1, days_7, days_30, days_90, days_180, days_365, all, Metric, price, change,
  Layout, separate, compare, ChartStyle, line, area, points, TableOrder, asc, desc, Scale, linear,
  log, MovingAverage, off, over_3, over_7, TableLimit, rows_25, rows_50, rows_100, rows_250,
  Preferences, Json, null, flag, number, text, array, object, Items, nil, cons, Fields, end, field,
}
use push_and_pray.Types.Texts.{
  range_text, metric_text, layout_text, style_text, order_text, limit_text, scale_text,
  average_text,
}
use push_and_pray.Api.{Request}

-- The value of the last field with a name.
pub member : Option Json → Text → Fields → Option Json
unfolding text_eq
member found name end = found
member found name (field key v rest) = member (if text_eq key name then some v else found) name rest

-- A field is read where it is there; a missing field has a default.
pub field_of : {T : Type 0} → (Json → Outcome T) → T → Text → Json → Outcome T
unfolding member
field_of read default name (object fs) = elim (member none name fs) [
  | none ↦ returns default
  | some v ↦ read v
]
field_of read default name _ = throws

-- The choice that a string or a number spells.
pub choice_of : {T : Type 0} → (T → Text) → List T → Text → Outcome T
unfolding text_eq
choice_of spell [] t = throws
choice_of spell (c ∷ cs) t = if text_eq (spell c) t then returns c else choice_of spell cs t

-- `Literal` of strings, which takes no number.
pub choose_string : {T : Type 0} → (T → Text) → List T → Json → Outcome T
unfolding choice_of
choose_string spell choices (text t) = choice_of spell choices t
choose_string spell choices _ = throws

-- `Literal` of numbers, which takes no string.
pub choose_number : {T : Type 0} → (T → Text) → List T → Json → Outcome T
unfolding choice_of
choose_number spell choices (number t) = choice_of spell choices t
choose_number spell choices _ = throws

pub read_texts : Items → Outcome (List Text)
read_texts nil = returns []
read_texts (cons (text t) rest) = do ts ← read_texts rest; returns (t ∷ ts)
read_texts (cons _ rest) = throws

-- `max_length=20`
pub at_most_20 : List Text → Outcome (Option (List Text))
at_most_20 ts = if leb (length ts) 20 then returns (some ts) else throws

-- `list[str] | None = Field(default=None, max_length=20)`
pub read_selected : Json → Outcome (Option (List Text))
unfolding read_texts at_most_20
read_selected null = returns none
read_selected (array items) = do ts ← read_texts items; at_most_20 ts
read_selected _ = throws

abbrev pub ranges : List RangeValue
ranges = days_1 ∷ days_7 ∷ days_30 ∷ days_90 ∷ days_180 ∷ days_365 ∷ all ∷ []

abbrev pub limits : List TableLimit
limits = rows_25 ∷ rows_50 ∷ rows_100 ∷ rows_250 ∷ []

-- What Pydantic makes of a JSON value for a field of type `bool` is an argument.
module _ (to_flag : Json → Outcome Bool) where
  unfoldable pub session_preferences : Json → Outcome Preferences
  unfolding field_of choose_string choose_number read_selected
  session_preferences j = do
    selected ← field_of read_selected none (codes "selected") j
    range ← field_of (choose_string range_text ranges) days_30 (codes "range") j
    metric ← field_of (choose_string metric_text (price ∷ change ∷ [])) price (codes "metric") j
    layout ←
        field_of (choose_string layout_text (separate ∷ compare ∷ [])) compare (codes "layout") j
    style ← field_of (choose_string style_text (line ∷ area ∷ points ∷ [])) line (codes "style") j
    table_order ← field_of (choose_string order_text (asc ∷ desc ∷ [])) desc (codes "table_order") j
    table_limit ← field_of (choose_number limit_text limits) rows_50 (codes "table_limit") j
    scale ← field_of (choose_string scale_text (linear ∷ log ∷ [])) linear (codes "scale") j
    moving_average ←
        field_of (choose_string average_text (off ∷ over_3 ∷ over_7 ∷ [])) off
          (codes "moving_average") j
    smooth ← field_of to_flag true (codes "smooth") j
    returns (record {
      selected = selected;
      range = range;
      metric = metric;
      layout = layout;
      style = style;
      table_order = table_order;
      table_limit = table_limit;
      scale = scale;
      moving_average = moving_average;
      smooth = smooth;
    })

  -- The payload of a request with a JSON body.
  unfoldable pub payload : Request → Outcome Preferences
  unfolding session_preferences
  payload r = elim r.body [ none ↦ throws | some j ↦ session_preferences j ]
