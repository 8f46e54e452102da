-- ===== src/App/Page/Throws.antt =====
-- What leaves nothing of the page: a date that cannot be read.
use push_and_pray.Prelude.{ℕ, suc, ◌≡◌, ◌≢◌, ◌⊎◌, inl, inr, refl, none, List, [], ◌∷◌, map, Any}
use push_and_pray.Prelude.Text.{Text}
use push_and_pray.Js.Outcome.{returns, throws, >>=-throws, >>=-rest_throws}
use push_and_pray.Js.Object.{Object}
use push_and_pray.Types.{Observation, loading, ready, error}
use push_and_pray.Platform.{Dates, Number}
use push_and_pray.Format.{date_text, format_date_time, event_time}
use push_and_pray.Data.Unique.{happened}
use push_and_pray.App.Session.{Session}
use push_and_pray.App.View.{sorted_table, history, chart_groups}
use push_and_pray.App.View.Cards.{rows_or_throw, delta_for, card, cards_from}
use push_and_pray.App.View.Summary.{summaries, row, rows_from, ledger}
use push_and_pray.App.Page.TopBar.{top_bar}
use push_and_pray.App.Page.Snapshot.{card_node, market_cards, market_section}
use push_and_pray.App.Page.Render.{page}

module _ ⦃d : Dates⦄ where
  -- One of the two dates in a row of the ledger cannot be read.
  abbrev pub HasBadDate : Observation → Type 0
  HasBadDate x = (happened x ≡ none) ⊎ (d.parse_date x.fetched_at ≡ none)

  format_date_time-throws :
      (text : Text) → d.parse_date text ≡ none → format_date_time (date_text text) ≡ throws
  unfolding format_date_time
  format_date_time-throws text h = rw (h, format_date_time) refl

module _ (W : Type 0) ⦃n : Number W⦄ ⦃d : Dates⦄ where
  row-throws : (index : ℕ) (x : Observation) → HasBadDate x → row W index x ≡ throws
  unfolding row happened
  row-throws index x (inl h) = >>=-throws _ _ (format_date_time-throws _ h)
  row-throws index x (inr h) =
      >>=-rest_throws (format_date_time (date_text (event_time x))) _
        (λ time. >>=-throws _ _ (format_date_time-throws _ h))

  rows_from-throws :
      (index : ℕ) (xs : List Observation) → Any HasBadDate xs → rows_from W index xs ≡ throws
  unfolding rows_from
  rows_from-throws index [] h = elim h [ ]
  rows_from-throws index (x ∷ xs) (inl h) = >>=-throws _ _ (row-throws index x h)
  rows_from-throws index (x ∷ xs) (inr h) =
      >>=-rest_throws (row W index x) _ (λ r. >>=-throws _ _ (rows_from-throws (suc index) xs h))

  card-throws :
      (groups : Object (List Observation)) (index : ℕ) (x : Observation)
      → happened x ≡ none
      → card W groups index x ≡ throws
  unfolding card happened
  card-throws groups index x h = >>=-rest_throws (delta_for W x groups) _ (λ delta.
      >>=-rest_throws (rows_or_throw x.instrument_code groups) _
        (λ rows. >>=-throws _ _ (format_date_time-throws _ h)))

  cards_from-throws :
      (groups : Object (List Observation)) (index : ℕ) (xs : List Observation)
      → Any (λ x. happened x ≡ none) xs
      → cards_from W groups index xs ≡ throws
  unfolding cards_from
  cards_from-throws groups index [] h = elim h [ ]
  cards_from-throws groups index (x ∷ xs) (inl h) = >>=-throws _ _ (card-throws groups index x h)
  cards_from-throws groups index (x ∷ xs) (inr h) =
      >>=-rest_throws (card W groups index x) _
        (λ c. >>=-throws _ _ (cards_from-throws groups (suc index) xs h))

  market_section-throws :
      {C : Type 0} (groups : Object (List Observation)) (s : Session)
      → s.load_state ≢ loading
      → Any (λ x. happened x ≡ none) s.latest
      → market_section {C = C} W groups s ≡ throws
  unfolding market_section market_cards
  market_section-throws {C = C} groups s k h =
      let cards =
        >>=-throws _ (λ cs. returns (map (card_node {C = C}) cs))
          (cards_from-throws groups 0 s.latest h) in
      >>=-throws _ _ (
        (elim s.load_state
            as (λ state.
              state ≢ loading
              → market_cards {C = C} W groups (record s { load_state = state }) ≡ throws) [
                | loading ↦ λ no. elim (no refl) [ ]
                | ready ↦ λ _. cards
                | error ↦ λ _. cards
              ])
          k)

  -- Rendering throws, and nothing of the page is left, as soon as one observation in the ledger has an
  -- event time or a collection time that cannot be read, or, once the first load has ended, one of the
  -- latest observations has an event time that cannot be read.
  pub page-throws :
      (s : Session)
      → Any HasBadDate (sorted_table s)
        ⊎ ((s.load_state ≢ loading) × Any (λ x. happened x ≡ none) s.latest)
      → page W s ≡ throws
  unfolding page ledger
  page-throws s bad = >>=-rest_throws (history s) _ (λ groups.
      >>=-rest_throws (chart_groups s) _ (λ charts. >>=-rest_throws (summaries W s) _ (λ overview.
        elim bad [
          | inl h ↦ >>=-throws (ledger W s) _ (rows_from-throws 0 (sorted_table s) h)
          | inr h ↦ >>=-rest_throws (ledger W s) _ (λ rows.
              >>=-rest_throws (top_bar s) _
                (λ header. >>=-throws _ _ (market_section-throws groups s h.0 h.1)))
        ])))
