-- ===== src/App/Page/Render.antt =====
-- The whole page. An exception while rendering leaves nothing of it.
use push_and_pray.Prelude.{List, [], ◌∷◌, ◌++◌}
use push_and_pray.Js.Outcome.{Outcome, returns, ◌>>=◌}
use push_and_pray.Platform.{Dates, Number}
use push_and_pray.Markup.{Node, el, class}
use push_and_pray.App.Session.{Session, Event}
use push_and_pray.App.View.{history, chart_groups}
use push_and_pray.App.View.Summary.{summaries, ledger}
use push_and_pray.App.Page.TopBar.{top_bar}
use push_and_pray.App.Page.Intro.{intro, site_footer}
use push_and_pray.App.Page.Snapshot.{error_banner, market_section}
use push_and_pray.Chart.Props.{PanelProps}
use push_and_pray.App.Page.Analysis.{analysis_section}
use push_and_pray.App.Page.Ledger.{ledger_section}

module _ {C : Type 0} where
  -- The page around its sections.
  unfoldable pub page_frame :
      Node Event C → List (Node Event C) → Node Event C → Node Event C → Node Event C → Node Event C
  unfolding intro site_footer
  page_frame header banner snapshot analysis table = el "div" (class "app-shell" ∷ []) (
      header
      ∷ el "main" [] (intro ∷ (banner ++ (snapshot ∷ analysis ∷ table ∷ [])))
      ∷ site_footer
      ∷ [])

module _ (W : Type 0) ⦃n : Number W⦄ ⦃d : Dates⦄ where
  unfoldable pub page : Session → Outcome (Node Event (PanelProps W))
  unfolding history chart_groups summaries ledger top_bar page_frame error_banner market_section
      analysis_section ledger_section
  page s = do
    groups ← history s
    charts ← chart_groups s
    overview ← summaries W s
    rows ← ledger W s
    header ← top_bar s
    snapshot ← market_section W groups s
    returns (
        page_frame header (error_banner s.load_state s.error_message) snapshot
          (analysis_section overview charts s) (ledger_section s.preferences rows))
