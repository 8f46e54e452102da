-- ===== src/App/Page/Ledger.antt =====
-- The data ledger.
use push_and_pray.Prelude.{List, [], ◌∷◌, map}
use push_and_pray.Prelude.Text.{Text, codes}
use push_and_pray.Types.{
  Preferences, TableOrder, asc, desc, TableLimit, rows_25, rows_50, rows_100, rows_250,
}
use push_and_pray.Types.Texts.{order_text, limit_text}
use push_and_pray.Markup.{Node, text, named, styled, on_select, el, words, named_by, class}
use push_and_pray.App.Session.{Event, updated, set_table_order, set_table_limit}
use push_and_pray.App.View.Summary.{Row}

-- `[25, 50, 100, 250]`
unfoldable pub table_limits : List TableLimit
table_limits = rows_25 ∷ rows_50 ∷ rows_100 ∷ rows_250 ∷ []

-- What `updatePreference` is called with at the value of an option.
unfoldable pub order_choice : TableOrder → Text × Event
unfolding order_text
order_choice order = (order_text order, updated (set_table_order order))

unfoldable pub limit_choice : TableLimit → Text × Event
unfolding limit_text
limit_choice limit = (limit_text limit, updated (set_table_limit limit))

module _ {C : Type 0} where
  unfoldable pub limit_option : TableLimit → Node Event C
  unfolding limit_text
  limit_option limit =
      el "option" (named (codes "value") (limit_text limit) ∷ []) (text (limit_text limit) ∷ [])

  unfoldable pub ledger_controls : Preferences → Node Event C
  unfolding order_text limit_text table_limits order_choice limit_choice limit_option
  ledger_controls p = el "div" (class "ledger-controls" ∷ []) (
      el "label" [] (
        el "span" [] (words "Order" ∷ [])
        ∷ el "select"
            (named (codes "value") (order_text p.table_order)
              ∷ on_select (order_choice desc ∷ order_choice asc ∷ [])
              ∷ [])
            (el "option" (named_by "value" "desc" ∷ []) (words "Newest first" ∷ [])
              ∷ el "option" (named_by "value" "asc" ∷ []) (words "Oldest first" ∷ [])
              ∷ [])
        ∷ [])
      ∷ el "label" [] (
          el "span" [] (words "Rows" ∷ [])
          ∷ el "select"
              (named (codes "value") (limit_text p.table_limit)
                ∷ on_select (map limit_choice table_limits)
                ∷ [])
              (map limit_option table_limits)
          ∷ [])
      ∷ [])

  unfoldable pub row_node : Row → Node Event C
  row_node r = el "tr" [] (
      el "td" [] (el "time" [] (text r.time ∷ []) ∷ el "small" [] (text r.period ∷ []) ∷ [])
      ∷ el "td" [] (
          el "i" (styled (codes "background") r.color ∷ []) []
          ∷ el "strong" [] (text r.instrument ∷ [])
          ∷ [])
      ∷ el "td" [] (el "strong" [] (text r.value ∷ []) ∷ el "small" [] (text r.unit ∷ []) ∷ [])
      ∷ el "td" [] (text r.collected ∷ [])
      ∷ el "td" [] (el "span" [] (text r.source ∷ []) ∷ el "small" [] (text r.series ∷ []) ∷ [])
      ∷ [])

  unfoldable pub heading_cell : Text → Node Event C
  heading_cell title = el "th" [] (text title ∷ [])

  unfoldable pub ledger_section : Preferences → List Row → Node Event C
  unfolding ledger_controls row_node heading_cell
  ledger_section p rows = el "section" (class "ledger-section" ∷ []) (
      el "div" (class "section-heading ledger-heading" ∷ []) (
        el "div" [] (
          el "span" [] (words "03" ∷ [])
          ∷ el "div" [] (
              el "p" [] (words "PostgreSQL observation log" ∷ [])
              ∷ el "h2" [] (words "Data ledger" ∷ [])
              ∷ [])
          ∷ [])
        ∷ ledger_controls p
        ∷ [])
      ∷ el "div" (class "table-wrap" ∷ []) (
          el "table" [] (
            el "thead" [] (
              el "tr" [] (
                map heading_cell (
                  codes "Market time / UTC"
                  ∷ codes "Instrument"
                  ∷ codes "Price"
                  ∷ codes "Collected / UTC"
                  ∷ codes "Source"
                  ∷ []))
              ∷ [])
            ∷ el "tbody" [] (map row_node rows)
            ∷ [])
          ∷ [])
      ∷ [])
