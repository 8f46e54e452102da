-- ===== src/App/Page/Snapshot.antt =====
-- The error banner and the market snapshot.
use push_and_pray.Prelude.{List, [], ◌∷◌, map}
use push_and_pray.Prelude.Text.{Text, codes}
use push_and_pray.Js.Outcome.{Outcome, returns, ◌>>=◌}
use push_and_pray.Js.Object.{Object}
use push_and_pray.Types.{Observation, LoadState, loading, error}
use push_and_pray.Platform.{Dates, Number}
use push_and_pray.Markup.{
  Node, text, on_click, named, el, words, named_by, class, series_style, icon,
}
use push_and_pray.App.Session.{Session, Event, try_again_clicked}
use push_and_pray.App.View.Cards.{Card, cards_from}

module _ {C : Type 0} where
  -- The banner of the state "error"; no banner is `null`.
  unfoldable pub error_banner : LoadState → Text → List (Node Event C)
  error_banner error message =
      el "section" (class "error-banner" ∷ []) (
        icon "CloudOff" 22
        ∷ el "div" [] (
            el "strong" [] (words "History Service unavailable" ∷ [])
            ∷ el "span" [] (text message ∷ [])
            ∷ [])
        ∷ el "button" (named_by "type" "button" ∷ on_click try_again_clicked ∷ [])
            (words "Try again" ∷ [])
        ∷ [])
      ∷ []
  error_banner _ message = []

  unfoldable pub skeleton : Node Event C
  skeleton = el "div" (class "market-card skeleton" ∷ []) []

  unfoldable pub card_node : Card → Node Event C
  card_node c = el "article" (class "market-card" ∷ series_style c.color ∷ []) (
      el "header" [] (el "span" [] (text c.label ∷ []) ∷ el "i" [] [] ∷ [])
      ∷ el "h3" [] (text c.title ∷ [])
      ∷ el "div" (class "market-value" ∷ []) (
          el "strong" [] (text c.value ∷ [])
          ∷ el "span" [] (text c.currency ∷ el "br" [] [] ∷ words "/ " ∷ text c.unit ∷ [])
          ∷ [])
      ∷ el "svg"
          (class "sparkline"
            ∷ named_by "viewBox" "0 0 100 38"
            ∷ named_by "preserveAspectRatio" "none"
            ∷ named_by "aria-hidden" "true"
            ∷ [])
          (el "path" (named (codes "d") c.path ∷ []) [] ∷ [])
      ∷ el "footer" [] (
          el "span" (named (codes "className") c.direction ∷ []) (text c.delta ∷ [])
          ∷ el "time" [] (text c.time ∷ [])
          ∷ [])
      ∷ [])

  module _ (W : Type 0) ⦃n : Number W⦄ ⦃d : Dates⦄ where
    -- Three empty cards while the page is loading, and then the latest observations.
    unfoldable pub market_cards :
        Object (List Observation) → Session → Outcome (List (Node Event C))
    unfolding skeleton card_node cards_from
    market_cards groups s = elim s.load_state [
      | loading ↦ returns (skeleton ∷ skeleton ∷ skeleton ∷ [])
      | _ ↦ do cards ← cards_from W groups 0 s.latest; returns (map card_node cards)
    ]

    unfoldable pub market_section : Object (List Observation) → Session → Outcome (Node Event C)
    unfolding market_cards
    market_section groups s = do
      cards ← market_cards groups s
      returns (
          el "section" (class "market-section" ∷ []) (
            el "div" (class "section-heading" ∷ []) (
              el "div" [] (
                el "span" [] (words "01" ∷ [])
                ∷ el "div" [] (
                    el "p" [] (words "Latest persisted values" ∷ [])
                    ∷ el "h2" [] (words "Market snapshot" ∷ [])
                    ∷ [])
                ∷ [])
              ∷ el "small" [] (words "Market time, not polling time" ∷ [])
              ∷ [])
            ∷ el "div" (class "market-grid" ∷ []) cards
            ∷ []))
