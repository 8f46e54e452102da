-- ===== src/App/View/Cards.antt =====
-- The market snapshot: one card for each of the latest observations, with its change against the
-- previous event and a sparkline of its history.
pub mod Sparkline
pub mod Delta
use push_and_pray.Prelude.{
  ℕ, zero, suc, ◌-◌, Bool, true, false, Option, none, some, List, [], ◌∷◌, ◌++◌, map, length, drop,
  if◌then◌else◌, ltb, ◌==◌,
}
use push_and_pray.Prelude.Text.{Text, codes, join}
use push_and_pray.Js.Outcome.{Outcome, returns, throws, ◌>>=◌}
use push_and_pray.Js.Object.{Object, Property, own, inherited, missing, get}
use push_and_pray.Types.{Observation, Category, crude_oil, gasoline, price, SeriesPoint}
use push_and_pray.Platform.{Dates, Number}
use push_and_pray.Format.{
  Amount, written, format_price, format_percent, DateValue, date_text, format_date_time, unit_short,
  event_time,
}
use push_and_pray.Data.Unique.{unique_chronological}
use push_and_pray.Data.Points.{percent_change, to_series_points}
use push_and_pray.Data.Charts.{series_color}
use push_and_pray.App.View.{history}

-- `history[code] ?? []`, which is then spread: an inherited value is not iterable.
unfoldable pub rows_or_throw : Text → Object (List Observation) → Outcome (List Observation)
unfolding get
rows_or_throw code groups = elim (get code groups) [
  | own rows ↦ returns rows
  | inherited ↦ throws
  | missing ↦ returns []
]

-- `rows.at(-2)`, where there are two rows.
unfoldable pub previous : List Observation → Option Observation
previous [] = none
previous (x ∷ []) = none
previous (x ∷ y ∷ []) = some x
previous (x ∷ y ∷ z ∷ rows) = previous (y ∷ z ∷ rows)

-- A sparkline is drawn in a frame of 100 by 38.
pub record Frame (W : Type 0) : Type 0 where
  pub count : ℕ
  pub min : W
  pub span : W

module _ {W : Type 0} ⦃n : Number W⦄ where
  abbrev change_since : Text → Option Observation → Option W
  change_since now none = none
  change_since now (some row) = some (percent_change (n.read now) (n.read row.price))

  -- `Math.min(first, ...rest)` and `Math.max(first, ...rest)`
  unfoldable pub least : W → List W → W
  least best [] = best
  least best (x ∷ xs) = least (n.smaller best x) xs

  unfoldable pub greatest : W → List W → W
  greatest best [] = best
  greatest best (x ∷ xs) = greatest (n.larger best x) xs

  unfoldable pub least_or : W → List W → W
  unfolding least
  least_or otherwise [] = otherwise
  least_or otherwise (x ∷ xs) = least x xs

  unfoldable pub greatest_or : W → List W → W
  unfolding greatest
  greatest_or otherwise [] = otherwise
  greatest_or otherwise (x ∷ xs) = greatest x xs

  unfoldable pub x_at : Frame W → ℕ → W
  x_at f index =
      if f.count == 1
      then n.literal 50
      else n.mul (n.div (n.literal index) (n.literal (f.count - 1))) (n.literal 100)

  unfoldable pub y_at : Frame W → W → W
  y_at f raw = n.sub (n.literal 34) (n.mul (n.div (n.sub raw f.min) f.span) (n.literal 28))

  unfoldable pub path_step : Frame W → ℕ → W → Text
  unfolding x_at y_at
  path_step f index raw =
      (if index == 0 then codes "M" else codes "L")
      ++ (codes " " ++ (n.to_fixed 2 (x_at f index) ++ (codes " " ++ n.to_fixed 2 (y_at f raw))))

  unfoldable pub path_steps : Frame W → ℕ → List W → List Text
  unfolding path_step
  path_steps f index [] = []
  path_steps f index (raw ∷ raws) = path_step f index raw ∷ path_steps f (suc index) raws

  -- `points.slice(-20)`
  unfoldable pub last_20 : List (SeriesPoint W) → List (SeriesPoint W)
  last_20 points = drop (length points - 20) points

  unfoldable pub frame_of : W → List W → Frame W
  unfolding least_or greatest_or
  frame_of otherwise raws =
      let min = least_or otherwise raws in
      let max = greatest_or otherwise raws in
      record { count = length raws; min = min; span = n.larger (n.sub max min) n.thousandth }

  unfoldable pub sparkline_path : W → List W → Text
  unfolding path_steps frame_of join
  sparkline_path otherwise raws = join (codes " ") (path_steps (frame_of otherwise raws) 0 raws)

pub record Card : Type 0 where
  pub color : Option Text
  pub label : Text
  pub title : Text
  pub value : Text
  pub currency : Text
  pub unit : Text
  pub path : Text
  pub direction : Text
  pub delta : Text
  pub time : Text

abbrev category_label : Category → Text
category_label gasoline = codes "REFINED PRODUCT"
category_label crude_oil = codes "CRUDE BENCHMARK"

module _ (W : Type 0) ⦃n : Number W⦄ ⦃d : Dates⦄ where
  -- `deltaFor`; `none` is null.
  unfoldable pub delta_for : Observation → Object (List Observation) → Outcome (Option W)
  unfolding previous rows_or_throw unique_chronological
  delta_for item groups = do
    rows ← rows_or_throw item.instrument_code groups
    returns (change_since item.price (previous (unique_chronological rows)))

  abbrev direction_of : Option W → Text
  direction_of none = codes ""
  direction_of (some delta) = if n.at_least delta (n.literal 0) then codes "up" else codes "down"

  abbrev delta_text : Option W → Text
  delta_text none = codes "No previous point"
  delta_text (some delta) = format_percent delta ++ codes " vs previous"

  unfoldable pub card : Object (List Observation) → ℕ → Observation → Outcome Card
  unfolding delta_for last_20 sparkline_path to_series_points format_price format_percent
      format_date_time unit_short event_time series_color
  card groups index item = do
    delta ← delta_for item groups
    rows ← rows_or_throw item.instrument_code groups
    time ← format_date_time (date_text (event_time item))
    returns (record {
      color = series_color item.instrument_code index;
      label = category_label item.category;
      title = item.instrument_name;
      value = format_price {W = W} (written item.price);
      currency = item.currency;
      unit = unit_short item.unit;
      path =
          sparkline_path (n.read item.price)
            (map (λ p. p.raw) (last_20 (to_series_points {W = W} rows price)));
      direction = direction_of delta;
      delta = delta_text delta;
      time = time ++ codes " UTC";
    })

  -- `latest.map((item, index) => ...)`
  unfoldable pub cards_from : Object (List Observation) → ℕ → List Observation → Outcome (List Card)
  unfolding card
  cards_from groups index [] = returns []
  cards_from groups index (item ∷ items) = do
    c ← card groups index item
    cs ← cards_from groups (suc index) items
    returns (c ∷ cs)
