-- ===== src/App/Page/Handlers.antt =====
-- What the user can cause on the whole page, and what the buttons that are not offered would do.
use push_and_pray.Prelude.{
  ◌≡◌, refl, ◌∙◌, Bool, true, false, Option, none, some, List, [], ◌∷◌, ◌++◌, append-nil,
  append_assoc, map, length, if◌then◌else◌,
}
use push_and_pray.Prelude.Text.{text_eq}
use push_and_pray.Js.Outcome.{returns, ◌>>=◌, Ensures, Ensures->>=, Ensures-rest, Ensures-returns}
use push_and_pray.Js.Object.{Object}
use push_and_pray.Types.{
  Observation, ChartGroup, Preferences, LoadState, loading, ready, error, asc, desc, rows_25,
  rows_50, rows_100, rows_250,
}
use push_and_pray.Platform.{Dates, Number}
use push_and_pray.Markup.{Node, nodes}
use push_and_pray.Markup.Offers.{offers, offers_all, offers_all-append, offers_all-map_none}
use push_and_pray.App.Session.{
  Session, SessionState, saved, saving, local, Event, updated, refresh_clicked, Update,
  set_table_order, set_table_limit,
}
use push_and_pray.App.View.{toggle_instrument, history, chart_groups, visible}
use push_and_pray.App.View.Instruments.{select_all, clear}
use push_and_pray.App.View.Cards.{Card, cards_from}
use push_and_pray.App.View.Summary.{Summary, Row, summaries, ledger}
use push_and_pray.App.Page.TopBar.{last_read_text, session_icon, refresh_button, top_bar}
use push_and_pray.App.Page.Intro.{intro, site_footer}
use push_and_pray.App.Page.Snapshot.{
  error_banner, card_node, skeleton, market_cards, market_section,
}
use push_and_pray.Chart.Props.{PanelProps}
use push_and_pray.App.Page.Analysis.{
  summary_node, summary_nodes, chart_node, empty_state, point_count, chart_nodes, analysis_frame,
  analysis_section,
}
use push_and_pray.App.Page.Filters.{filters}
use push_and_pray.App.Page.Ledger.{
  table_limits, order_choice, limit_choice, limit_option, ledger_controls, row_node, heading_cell,
  ledger_section,
}
use push_and_pray.App.Page.Render.{page_frame, page}
use push_and_pray.App.Page.Offers.{
  control_updates, retry_events, offers-controls, offers-error_banner,
}

unfoldable pub refresh_events : Bool → List Event
refresh_events refreshing = if refreshing then [] else refresh_clicked ∷ []

unfoldable pub ledger_updates : List Update
ledger_updates =
    set_table_order desc
    ∷ set_table_order asc
    ∷ map set_table_limit (rows_25 ∷ rows_50 ∷ rows_100 ∷ rows_250 ∷ [])

-- Every event that the page offers, from its top to its bottom.
unfoldable pub page_events : Session → List Event
unfolding refresh_events ledger_updates
page_events s =
    refresh_events s.refreshing
    ++ (retry_events s.load_state
        ++ (updated (select_all s)
            ∷ updated clear
            ∷ (map (λ i. updated (toggle_instrument s i.code)) s.instruments
                ++ (map updated (control_updates s.preferences) ++ map updated ledger_updates))))

module _ (C : Type 0) where
  offers-refresh_button : (b : Bool) → offers (refresh_button {C = C} b) ≡ refresh_events b
  unfolding refresh_button offers refresh_events text_eq
  offers-refresh_button true = refl
  offers-refresh_button false = refl

  offers-intro : offers (intro {C = C}) ≡ []
  unfolding intro offers text_eq
  offers-intro = refl

  offers-site_footer : offers (site_footer {C = C}) ≡ []
  unfolding site_footer offers text_eq
  offers-site_footer = refl

  offers-ledger_section :
      (p : Preferences) (rows : List Row)
      → offers (ledger_section {C = C} p rows) ≡ map updated ledger_updates
  unfolding ledger_section ledger_controls offers row_node ledger_updates table_limits order_choice
      limit_choice text_eq limit_option heading_cell
  offers-ledger_section p rows = simp (offers_all-map_none (row_node {C = C}) rows (λ r. refl))

  offers-cards : (cs : List Card) → offers_all (nodes (map (card_node {C = C}) cs)) ≡ []
  unfolding card_node offers text_eq
  offers-cards cs = offers_all-map_none (card_node {C = C}) cs (λ c. refl)

  offers-session_icon : (state : SessionState) → offers (session_icon {C = C} state) ≡ []
  unfolding session_icon offers text_eq
  offers-session_icon saved = refl
  offers-session_icon saving = refl
  offers-session_icon local = refl

  offers-top_bar :
      ⦃d : Dates⦄ (s : Session)
      → Ensures (λ (b : Node Event C). offers b ≡ refresh_events s.refreshing) (top_bar s)
  unfolding top_bar last_read_text offers text_eq
  offers-top_bar s = Ensures-rest _ (last_read_text s.last_read) _ (λ time.
      simp (offers-session_icon s.session_state, offers-refresh_button s.refreshing, append-nil))

  module _ (W : Type 0) ⦃n : Number W⦄ ⦃d : Dates⦄ where
    offers-cards_from :
        (groups : Object (List Observation)) (s : Session)
        → Ensures
            (λ (ns : List (Node Event C)). offers_all (nodes ns) ≡ [])
            (cards_from W groups 0 s.latest >>= λ cs. returns (map card_node cs))
    offers-cards_from groups s = Ensures-rest _ (cards_from W groups 0 s.latest) _ offers-cards

    abbrev OffersNoCards : Object (List Observation) → Session → LoadState → Type 0
    OffersNoCards groups s state =
        Ensures (λ (ns : List (Node Event C)). offers_all (nodes ns) ≡ [])
          (market_cards W groups (record s { load_state = state }))

    offers-market_cards :
        (groups : Object (List Observation)) (s : Session) → OffersNoCards groups s s.load_state
    unfolding market_cards skeleton offers text_eq
    offers-market_cards groups s = elim s.load_state as (OffersNoCards groups s) [
      | loading ↦ refl
      | ready ↦ offers-cards_from groups s
      | error ↦ offers-cards_from groups s
    ]

    offers-market_section :
        (groups : Object (List Observation)) (s : Session)
        → Ensures (λ (n : Node Event C). offers n ≡ []) (market_section W groups s)
    unfolding market_section offers text_eq
    offers-market_section groups s =
        Ensures->>= _ _ (market_cards W groups s) _ (offers-market_cards groups s)
          (λ ns h. simp (h, append-nil))

module _ (C : Type 0) where
  offers-summary_nodes :
      (ms : List (Option Summary)) → offers_all (nodes (summary_nodes {C = C} ms)) ≡ []
  unfolding summary_nodes summary_node offers text_eq
  offers-summary_nodes [] = refl
  offers-summary_nodes (none ∷ ms) = offers-summary_nodes ms
  offers-summary_nodes (some m ∷ ms) = offers-summary_nodes ms

module _ (W : Type 0) where
  offers-chart_nodes :
      (p : Preferences) (charts : List (ChartGroup W))
      → offers_all (nodes (chart_nodes p charts)) ≡ []
  unfolding chart_nodes chart_node empty_state offers text_eq
  offers-chart_nodes p [] = refl
  offers-chart_nodes p (g ∷ gs) = offers_all-map_none (chart_node p) (g ∷ gs) (λ c. refl)

  abbrev filter_events : Session → List Event
  filter_events s =
      updated (select_all s)
      ∷ updated clear
      ∷ (map (λ i. updated (toggle_instrument s i.code)) s.instruments
          ++ map updated (control_updates s.preferences))

  offers-analysis_frame :
      (count controls : Node Event (PanelProps W))
      (overview charts : List (Node Event (PanelProps W)))
      → offers count ≡ []
      → offers_all (nodes overview) ≡ []
      → offers_all (nodes charts) ≡ []
      → offers (analysis_frame count controls overview charts) ≡ offers controls
  unfolding analysis_frame offers text_eq
  offers-analysis_frame count controls overview charts h k l = simp (h, k, l, append-nil)

  offers-analysis_section :
      ⦃d : Dates⦄ (overview : List (Option Summary)) (charts : List (ChartGroup W)) (s : Session)
      → offers (analysis_section overview charts s) ≡ filter_events s
  unfolding analysis_section offers point_count text_eq
  offers-analysis_section overview charts s =
      offers-analysis_frame (point_count (length (visible s))) (filters s) (summary_nodes overview)
        (chart_nodes s.preferences charts) refl (offers-summary_nodes (PanelProps W) overview)
        (offers-chart_nodes s.preferences charts)
      ∙ offers-controls (PanelProps W) s

  offers-page_frame :
      (header snapshot analysis table : Node Event (PanelProps W))
      (banner : List (Node Event (PanelProps W)))
      → offers snapshot ≡ []
      → offers (page_frame header banner snapshot analysis table)
        ≡ offers header ++ (offers_all (nodes banner) ++ (offers analysis ++ offers table))
  unfolding page_frame offers text_eq
  offers-page_frame header snapshot analysis table banner h = simp (
    offers_all-append banner (snapshot ∷ analysis ∷ table ∷ []),
    h,
    offers-intro (PanelProps W),
    append-nil,
  )

  page_events-parts :
      (s : Session) {top banner middle table : List Event}
      → top ≡ refresh_events s.refreshing
      → banner ≡ retry_events s.load_state
      → middle ≡ filter_events s
      → table ≡ map updated ledger_updates
      → top ++ (banner ++ (middle ++ table)) ≡ page_events s
  unfolding page_events
  page_events-parts s h k l m = simp (h, k, l, m, append_assoc)

  module _ ⦃n : Number W⦄ ⦃d : Dates⦄ where
    page_frame-offers :
        (s : Session) (overview : List (Option Summary)) (charts : List (ChartGroup W))
        (rows : List Row) (header snapshot : Node Event (PanelProps W))
        → offers header ≡ refresh_events s.refreshing
        → offers snapshot ≡ []
        → offers (
            page_frame header
              (error_banner s.load_state s.error_message)
              snapshot
              (analysis_section overview charts s)
              (ledger_section s.preferences rows))
          ≡ page_events s
    page_frame-offers s overview charts rows header snapshot h k =
        offers-page_frame header snapshot _ _ (error_banner s.load_state s.error_message) k
        ∙ page_events-parts s h (offers-error_banner (PanelProps W) s.load_state s.error_message)
            (offers-analysis_section overview charts s)
            (offers-ledger_section (PanelProps W) s.preferences rows)

    page-Ensures : (s : Session) → Ensures (λ p. offers p ≡ page_events s) (page W s)
    unfolding page
    page-Ensures s = Ensures-rest _ (history s) _ (λ groups.
        Ensures-rest _ (chart_groups s) _ (λ charts. Ensures-rest _ (summaries W s) _ (λ overview.
          Ensures-rest _ (ledger W s) _ (λ rows.
            Ensures->>= _ _ (top_bar s) _ (offers-top_bar (PanelProps W) s) (λ header h.
              Ensures->>= _ _ (market_section W groups s) _
                (offers-market_section (PanelProps W) W groups s)
                (λ snapshot k. page_frame-offers s overview charts rows header snapshot h k))))))

    -- Whatever the page shows, the events that its enabled buttons, boxes and lists can cause are, from its top to
    -- its bottom: a refresh unless one is running, a retry where an error is shown, the choice of all
    -- instruments and of none, the toggle of each known instrument, every value of each preference (a scale
    -- only beside a chart of prices), and the order and the length of the table.
    pub page-offers :
        (s : Session) {p : Node Event (PanelProps W)}
        → page W s ≡ returns p
        → offers p ≡ page_events s
    page-offers s h = Ensures-returns _ (page W s) (page-Ensures s) h
