-- ===== src/App/Page/Analysis.antt =====
-- The market analysis: the controls, the summaries and the charts.
use push_and_pray.Prelude.{ℕ, Option, none, some, List, [], ◌∷◌, map, length}
use push_and_pray.Prelude.Text.{codes}
use push_and_pray.Js.Number.{number_text}
use push_and_pray.Types.{Preferences, ChartGroup}
use push_and_pray.Platform.{Dates}
use push_and_pray.Markup.{
  Node, text, component, suspense, named, el, words, class, series_style, icon, nodes,
}
use push_and_pray.Chart.Props.{PanelProps}
use push_and_pray.App.Session.{Session, Event}
use push_and_pray.App.View.{visible}
use push_and_pray.App.View.Summary.{Summary}
use push_and_pray.App.Page.Filters.{filters}

module _ {C : Type 0} where
  unfoldable pub summary_node : Summary → Node Event C
  unfolding number_text
  summary_node m = el "article" (series_style m.color ∷ []) (
      el "span" [] (el "i" [] [] ∷ text m.title ∷ [])
      ∷ el "strong" (named (codes "className") m.direction ∷ []) (text m.change ∷ [])
      ∷ el "dl" [] (
          el "div" [] (el "dt" [] (words "Low" ∷ []) ∷ el "dd" [] (text m.low ∷ []) ∷ [])
          ∷ el "div" [] (el "dt" [] (words "High" ∷ []) ∷ el "dd" [] (text m.high ∷ []) ∷ [])
          ∷ el "div" []
              (el "dt" [] (words "Points" ∷ []) ∷ el "dd" [] (text (number_text m.count) ∷ []) ∷ [])
          ∷ [])
      ∷ [])

  -- A series with no points is `null`.
  unfoldable pub summary_nodes : List (Option Summary) → List (Node Event C)
  unfolding summary_node
  summary_nodes [] = []
  summary_nodes (none ∷ ms) = summary_nodes ms
  summary_nodes (some m ∷ ms) = summary_node m ∷ summary_nodes ms

  unfoldable pub empty_state : Node Event C
  empty_state = el "div" (class "empty-state" ∷ []) (
      icon "BarChart3" 30
      ∷ el "strong" [] (words "No series selected" ∷ [])
      ∷ el "span" [] (words "Select at least one instrument in the controls." ∷ [])
      ∷ [])

  unfoldable pub point_count : ℕ → Node Event C
  unfolding number_text
  point_count count = el "div" (class "point-count" ∷ []) (
      el "strong" [] (text (number_text count) ∷ [])
      ∷ el "span" [] (words "visible" ∷ el "br" [] [] ∷ words "observations" ∷ [])
      ∷ [])

module _ {W : Type 0} where
  unfoldable pub panel_props : Preferences → ChartGroup W → PanelProps W
  panel_props p group = record {
    group = group;
    metric = p.metric;
    style = p.style;
    scale = p.scale;
    smooth = p.smooth;
    moving_average = p.moving_average;
  }

  unfoldable pub chart_node : Preferences → ChartGroup W → Node Event (PanelProps W)
  unfolding panel_props
  chart_node p group =
      suspense
        (nodes (el "div" (class "chart-loading" ∷ []) (words "Preparing chart engine…" ∷ []) ∷ []))
        (nodes (component (panel_props p group) ∷ []))

  -- `chartGroups.length ? chartGroups.map(...) : ...`
  unfoldable pub chart_nodes : Preferences → List (ChartGroup W) → List (Node Event (PanelProps W))
  unfolding chart_node empty_state
  chart_nodes p [] = empty_state ∷ []
  chart_nodes p (g ∷ gs) = map (chart_node p) (g ∷ gs)

  -- The section around the controls, the summaries and the charts.
  unfoldable pub analysis_frame :
      Node Event (PanelProps W)
      → Node Event (PanelProps W)
      → List (Node Event (PanelProps W))
      → List (Node Event (PanelProps W))
      → Node Event (PanelProps W)
  analysis_frame count controls overview charts = el "section" (class "analysis-section" ∷ []) (
      el "div" (class "section-heading" ∷ []) (
        el "div" [] (
          el "span" [] (words "02" ∷ [])
          ∷ el "div" [] (
              el "p" [] (words "Interactive time series" ∷ [])
              ∷ el "h2" [] (words "Market analysis" ∷ [])
              ∷ [])
          ∷ [])
        ∷ count
        ∷ [])
      ∷ el "div" (class "analysis-layout" ∷ []) (
          controls
          ∷ el "div" (class "analysis-main" ∷ []) (
              el "div" (class "series-summary" ∷ []) overview
              ∷ el "div" (class "charts" ∷ []) charts
              ∷ [])
          ∷ [])
      ∷ [])

  unfoldable pub analysis_section :
      ⦃d : Dates⦄
      → List (Option Summary)
      → List (ChartGroup W)
      → Session
      → Node Event (PanelProps W)
  unfolding analysis_frame summary_nodes chart_nodes point_count filters visible
  analysis_section summaries charts s =
      analysis_frame (point_count (length (visible s))) (filters s) (summary_nodes summaries)
        (chart_nodes s.preferences charts)
