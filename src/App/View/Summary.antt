-- ===== src/App/View/Summary.antt =====
-- The summaries of the visible series, and the rows of the ledger.
use push_and_pray.Prelude.{
  ℕ, suc, Option, none, some, List, [], ◌∷◌, ◌++◌, map, length, if◌then◌else◌,
}
use push_and_pray.Prelude.Text.{Text, codes}
use push_and_pray.Js.Outcome.{Outcome, returns, ◌>>=◌}
use push_and_pray.Js.Object.{entries}
use push_and_pray.Types.{Observation, price, SeriesPoint}
use push_and_pray.Platform.{Dates, Number}
use push_and_pray.Format.{
  amount, written, format_price, format_percent, date_text, format_date_time, unit_short,
  event_time,
}
use push_and_pray.Data.Groups.{group_by_instrument}
use push_and_pray.Data.Points.{percent_change, to_series_points}
use push_and_pray.Data.Charts.{Entry, series_color}
use push_and_pray.App.Session.{Session}
use push_and_pray.App.View.{visible, sorted_table}
use push_and_pray.App.View.Cards.{least, greatest}

pub record Summary : Type 0 where
  pub color : Option Text
  pub title : Text
  pub direction : Text
  pub change : Text
  pub low : Text
  pub high : Text
  pub count : ℕ

-- `points.at(-1)`, after a first point.
unfoldable pub last_of : {A : Type 0} → A → List A → A
last_of first [] = first
last_of first (x ∷ xs) = last_of x xs

module _ {W : Type 0} ⦃n : Number W⦄ where
  -- `(last.raw / first.raw - 1) * 100`
  unfoldable pub total_change : SeriesPoint W → List (SeriesPoint W) → W
  unfolding percent_change last_of
  total_change first rest = percent_change (last_of first rest).raw first.raw

  summarize : Text → ℕ → SeriesPoint W → List (SeriesPoint W) → Summary
  unfolding total_change last_of least greatest format_percent format_price
  summarize code index first rest =
      let raws = map (λ p. p.raw) rest in
      record {
        color = series_color code index;
        title = (last_of first rest).observation.instrument_name;
        direction =
            if n.at_least (total_change first rest) (n.literal 0) then codes "up" else codes "down";
        change = format_percent (total_change first rest);
        low = format_price (amount (least first.raw raws));
        high = format_price (amount (greatest first.raw raws));
        count = suc (length rest);
      }

  -- Nothing is shown of a series with no points.
  unfoldable pub summary_of : Text → ℕ → List (SeriesPoint W) → Option Summary
  unfolding summarize
  summary_of code index [] = none
  summary_of code index (first ∷ rest) = some (summarize code index first rest)

module _ (W : Type 0) ⦃n : Number W⦄ ⦃d : Dates⦄ where
  -- `Object.entries(visibleGroups).map(([code, rows], index) => ...)`
  unfoldable pub summaries_from : ℕ → List Entry → List (Option Summary)
  unfolding summary_of to_series_points
  summaries_from index [] = []
  summaries_from index ((code, rows) ∷ es) =
      summary_of {W = W} code index (to_series_points rows price) ∷ summaries_from (suc index) es

  unfoldable pub summaries : Session → Outcome (List (Option Summary))
  unfolding visible group_by_instrument summaries_from entries
  summaries s = do
    groups ← group_by_instrument (visible s)
    returns (summaries_from 0 (entries groups))

pub record Row : Type 0 where
  pub key : Text
  pub time : Text
  pub period : Text
  pub color : Option Text
  pub instrument : Text
  pub value : Text
  pub unit : Text
  pub collected : Text
  pub source : Text
  pub series : Text

module _ (W : Type 0) ⦃n : Number W⦄ ⦃d : Dates⦄ where
  -- A row of the ledger; a date that cannot be read throws.
  unfoldable pub row : ℕ → Observation → Outcome Row
  unfolding format_date_time event_time format_price unit_short series_color
  row index item = do
    time ← format_date_time (date_text (event_time item))
    collected ← format_date_time (date_text item.fetched_at)
    returns (record {
      key = item.id;
      time = time;
      period = item.source_period;
      color = series_color item.instrument_code index;
      instrument = item.instrument_name;
      value = format_price {W = W} (written item.price);
      unit = item.currency ++ (codes " / " ++ unit_short item.unit);
      collected = collected;
      source = item.source;
      series = item.source_series_id;
    })

  unfoldable pub rows_from : ℕ → List Observation → Outcome (List Row)
  unfolding row
  rows_from index [] = returns []
  rows_from index (item ∷ items) = do
    r ← row index item
    rs ← rows_from (suc index) items
    returns (r ∷ rs)

  -- The body of the ledger's table.
  unfoldable pub ledger : Session → Outcome (List Row)
  unfolding rows_from sorted_table
  ledger s = rows_from 0 (sorted_table s)
