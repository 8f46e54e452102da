-- ===== src/App/View.antt =====
-- What `App` computes from its state while it renders.
pub mod Table
pub mod Selection
pub mod SelectionSet
pub mod Instruments
pub mod Controls
pub mod Cards
pub mod Summary
use push_and_pray.Prelude.{
  ℕ, Bool, true, false, not, Option, none, some, List, [], ◌∷◌, ◌++◌, if◌then◌else◌, select, take,
}
use push_and_pray.Prelude.Int.{ℤ, neg}
use push_and_pray.Prelude.Text.{Text, text_eq}
use push_and_pray.Js.Eq.{Instant, text_key}
use push_and_pray.Js.Outcome.{Outcome, ◌>>=◌}
use push_and_pray.Js.Object.{Object}
use push_and_pray.Js.KeyMap.{has}
use push_and_pray.Js.Sort.{sort}
use push_and_pray.Types.{
  Observation, Preferences, TableOrder, asc, desc, TableLimit, rows_25, rows_50, rows_100, rows_250,
  ChartGroup,
}
use push_and_pray.Types.Texts.{limit_rows}
use push_and_pray.Platform.{Dates, Number}
use push_and_pray.Data.Unique.{minus, happened}
use push_and_pray.Data.Visible.{filter_visible}
use push_and_pray.Data.Groups.{group_by_instrument}
use push_and_pray.Data.Charts.{create_chart_groups}
use push_and_pray.App.Session.{Session, Update, set_selected}

-- `preferences.selected ?? []`
abbrev pub selected_codes : Preferences → List Text
selected_codes p = elim p.selected [ none ↦ [] | some codes ↦ codes ]

-- The update that `toggleInstrument(code)` makes.
unfoldable pub toggled : List Text → Text → List Text
unfolding has
toggled selected code =
    if has selected code
    then select (λ item. not (text_eq item code)) selected
    else selected ++ (code ∷ [])

unfoldable pub toggle_instrument : Session → Text → Update
unfolding toggled
toggle_instrument s code = set_selected (toggled (selected_codes s.preferences) code)

-- `difference * direction`, where the direction is 1 or -1.
abbrev times_direction : TableOrder → Instant → Instant
times_direction order none = none
times_direction asc (some v) = some v
times_direction desc (some v) = some (neg v)

module _ ⦃d : Dates⦄ where
  unfoldable pub visible : Session → List Observation
  unfolding filter_visible
  visible s = filter_visible s.observations (selected_codes s.preferences) s.preferences.range

  abbrev pub by_time : TableOrder → Observation → Observation → Instant
  by_time order a b = times_direction order (minus (happened a) (happened b))

  unfoldable pub table_of : TableOrder → TableLimit → List Observation → List Observation
  unfolding sort limit_rows
  table_of order limit rows = take (limit_rows limit) (sort (by_time order) rows)

  unfoldable pub sorted_table : Session → List Observation
  unfolding table_of visible
  sorted_table s = table_of s.preferences.table_order s.preferences.table_limit (visible s)

  unfoldable pub history : Session → Outcome (Object (List Observation))
  history s = group_by_instrument s.observations

  module _ {W : Type 0} ⦃n : Number W⦄ where
    unfoldable pub chart_groups : Session → Outcome (List (ChartGroup W))
    chart_groups s =
        create_chart_groups (visible s) s.instruments s.preferences.metric s.preferences.layout
