-- ===== src/App/Page/Returns.antt =====
-- When the page is rendered without an exception.
use push_and_pray.Prelude.{
  ℕ, suc, ◌≡◌, refl, false, Option, none, some, List, [], ◌∷◌, if◌then◌else◌, map, All, All-select,
  All-imp,
}
use push_and_pray.Prelude.Int.{ℤ}
use push_and_pray.Prelude.Text.{Text}
use push_and_pray.Js.Outcome.{Outcome, returns, throws, Returns, Returns->>=}
use push_and_pray.Js.Object.{Object, Property, own, inherited, missing, is_inherited, find, get}
use push_and_pray.Js.Sort.Laws.{sort-All}
use push_and_pray.Types.{Observation, loading, ready, error}
use push_and_pray.Platform.{Dates, Number}
use push_and_pray.Format.{date_text, format_date_time, event_time}
use push_and_pray.Data.Unique.{happened}
use push_and_pray.Data.Unique.Laws.{IsValidInstant}
use push_and_pray.Data.Visible.Laws.{filter_visible-eq-select}
use push_and_pray.Data.Groups.{group_by_instrument}
use push_and_pray.Data.Groups.Laws.{group_own, group_into-returns}
use push_and_pray.Data.Groups.Entries.{code_of}
use push_and_pray.Data.Charts.Contract.{IsPlainObservation}
use push_and_pray.Data.Charts.Laws.{create_chart_groups-Draws}
use push_and_pray.App.Session.{Session}
use push_and_pray.Types.Texts.{limit_rows}
use push_and_pray.App.View.{
  selected_codes, visible, by_time, table_of, sorted_table, history, chart_groups,
}
use push_and_pray.App.View.Table.{All-take}
use push_and_pray.App.View.Cards.{rows_or_throw, delta_for, card, cards_from}
use push_and_pray.App.View.Summary.{summaries, row, rows_from, ledger}
use push_and_pray.App.Page.TopBar.{last_read_text, top_bar}
use push_and_pray.App.Page.Snapshot.{card_node, market_cards, market_section}
use push_and_pray.App.Page.Render.{page}

module _ ⦃d : Dates⦄ where
  -- Its code and unit are no names that `{}` inherits, and its two dates can be read.
  pub record IsShowable (x : Observation) : Type 0 where
    pub plain : IsPlainObservation x
    pub time : IsValidInstant (happened x)
    pub collected : IsValidInstant (d.parse_date x.fetched_at)

  pub record IsShowableCard (x : Observation) : Type 0 where
    pub plain_code : is_inherited x.instrument_code ≡ false
    pub card_time : IsValidInstant (happened x)

  format_date_time-Returns :
      (text : Text)
      → IsValidInstant (d.parse_date text)
      → Returns (format_date_time (date_text text))
  unfolding format_date_time
  format_date_time-Returns text h =
      elim (d.parse_date text)
          as (λ t.
            IsValidInstant t
            → Returns (elim t [ none ↦ throws | some v ↦ returns (d.show_date_time v) ])) [
              | none ↦ λ v. elim v [ ]
              | some t ↦ λ v. (d.show_date_time t, refl)
            ]
        h

  visible-All : (P : Observation → Type 0) (s : Session) → All P s.observations → All P (visible s)
  unfolding visible
  visible-All P s h =
      rw
        (filter_visible-eq-select s.observations (selected_codes s.preferences) s.preferences.range)
        (All-select P _ _ (All-select P _ s.observations h))

  sorted_table-All :
      (P : Observation → Type 0) (s : Session) → All P s.observations → All P (sorted_table s)
  unfolding sorted_table table_of
  sorted_table-All P s h =
      All-take P (limit_rows s.preferences.table_limit) _
        (sort-All (by_time s.preferences.table_order) P (visible s) (visible-All P s h))

  group_by_instrument-Returns :
      (items : List Observation) → All IsShowable items → Returns (group_by_instrument items)
  unfolding group_by_instrument
  group_by_instrument-Returns items h = (
    group_own code_of [] items,
    group_into-returns code_of items (All-imp _ _ items (λ x p. p.plain.0) h),
  )

  top_bar-Returns : {C : Type 0} (s : Session) → Returns (top_bar {C = C} s)
  unfolding top_bar last_read_text format_date_time
  top_bar-Returns s =
      Returns->>= (last_read_text s.last_read) _ (read s.last_read) (λ time. (_, refl))
    where
      read : (last : Option ℤ) → Returns (last_read_text last)
      read none = (_, refl)
      read (some now) = (_, refl)

rows_or_throw-Returns :
    (code : Text) (groups : Object (List Observation))
    → is_inherited code ≡ false
    → Returns (rows_or_throw code groups)
unfolding rows_or_throw get
rows_or_throw-Returns code groups h =
    elim (find code groups) as (λ o. Returns (rows_of (found o))) [
      | some v ↦ (v, refl)
      | none ↦ rw h ([], refl)
    ]
  where
    found : Option (List Observation) → Property (List Observation)
    found o = elim o [ some v ↦ own v | none ↦ if is_inherited code then inherited else missing ]

    rows_of : Property (List Observation) → Outcome (List Observation)
    rows_of p = elim p [ own rows ↦ returns rows | inherited ↦ throws | missing ↦ returns [] ]

module _ (W : Type 0) ⦃n : Number W⦄ ⦃d : Dates⦄ where
  cards_from-Returns :
      (groups : Object (List Observation)) (index : ℕ) (items : List Observation)
      → All IsShowableCard items
      → Returns (cards_from W groups index items)
  unfolding cards_from card delta_for happened
  cards_from-Returns groups index [] h = ([], refl)
  cards_from-Returns groups index (item ∷ items) h =
      Returns->>= (card W groups index item) _
        (Returns->>= (delta_for W item groups) _
          (Returns->>= (rows_or_throw item.instrument_code groups) _
            (rows_or_throw-Returns item.instrument_code groups h.0.plain_code) (λ rows. (_, refl)))
          (λ delta.
            Returns->>= (rows_or_throw item.instrument_code groups) _
              (rows_or_throw-Returns item.instrument_code groups h.0.plain_code)
              (λ rows.
                Returns->>= (format_date_time (date_text (event_time item))) _
                  (format_date_time-Returns _ h.0.card_time) (λ time. (_, refl)))))
        (λ c.
          Returns->>= (cards_from W groups (suc index) items) _
            (cards_from-Returns groups (suc index) items h.1) (λ cs. (_, refl)))

  rows_from-Returns :
      (index : ℕ) (items : List Observation)
      → All IsShowable items
      → Returns (rows_from W index items)
  unfolding rows_from row happened
  rows_from-Returns index [] h = ([], refl)
  rows_from-Returns index (item ∷ items) h =
      Returns->>= (row W index item) _
        (Returns->>= (format_date_time (date_text (event_time item))) _
          (format_date_time-Returns _ h.0.time)
          (λ time.
            Returns->>= (format_date_time (date_text item.fetched_at)) _
              (format_date_time-Returns _ h.0.collected) (λ collected. (_, refl))))
        (λ r.
          Returns->>= (rows_from W (suc index) items) _ (rows_from-Returns (suc index) items h.1)
            (λ rs. (_, refl)))

  market_section-Returns :
      {C : Type 0} (groups : Object (List Observation)) (s : Session)
      → All IsShowableCard s.latest
      → Returns (market_section {C = C} W groups s)
  unfolding market_section market_cards
  market_section-Returns {C = C} groups s h =
      let cards =
        Returns->>= (cards_from W groups 0 s.latest) (λ cs. returns (map card_node cs))
          (cards_from-Returns groups 0 s.latest h) (λ cs. (_, refl)) in
      Returns->>= (market_cards {C = C} W groups s) _
        (elim s.load_state
          as (λ state. Returns (market_cards {C = C} W groups (record s { load_state = state }))) [
            | loading ↦ (_, refl)
            | ready ↦ cards
            | error ↦ cards
          ])
        (λ nodes. (_, refl))

  -- The page is rendered, in every state of the session, if no observation in it has a code or a unit
  -- that is a name `{}` inherits, no latest observation has such a code, and all the dates that
  -- the cards and the ledger may show can be read.
  pub page-Returns :
      (s : Session)
      → All IsShowable s.observations
      → All IsShowableCard s.latest
      → Returns (page W s)
  unfolding page history chart_groups summaries ledger
  page-Returns s h k =
      let seen = visible-All IsShowable s h in
      let (charts, drawn, _) =
        create_chart_groups-Draws W (visible s) s.instruments s.preferences.metric
          s.preferences.layout (All-imp _ _ (visible s) (λ x p. p.plain) seen) in
      Returns->>= (history s) _ (group_by_instrument-Returns s.observations h) (λ groups.
        Returns->>= (chart_groups s) _ (charts, drawn)
          (λ charts.
            Returns->>= (summaries W s) _
              (Returns->>= (group_by_instrument (visible s)) _
                (group_by_instrument-Returns (visible s) seen) (λ g. (_, refl)))
              (λ overview.
                Returns->>= (ledger W s) _
                  (rows_from-Returns 0 (sorted_table s) (sorted_table-All IsShowable s h))
                  (λ rows. Returns->>= (top_bar s) _ (top_bar-Returns s) (λ header.
                    Returns->>= (market_section W groups s) _ (market_section-Returns groups s k)
                      (λ snapshot. (_, refl)))))))
