-- ===== src/App/Page/Intro.antt =====
-- The introduction and the footer, which depend on no state.
use push_and_pray.Prelude.{ℕ, suc, List, [], ◌∷◌, length, ltb, if◌then◌else◌}
use push_and_pray.Prelude.Text.{Text, codes}
use push_and_pray.Js.Number.{number_text}
use push_and_pray.Markup.{Node, text, el, words, class, icon}
use push_and_pray.App.Session.{Event}

-- `String(index + 1).padStart(2, "0")`
unfoldable pub step_number : ℕ → Text
unfolding number_text
step_number index =
    let digits = number_text (suc index) in if ltb (length digits) 2 then b'0' ∷ digits else digits

module _ {C : Type 0} where
  unfoldable pub flow_steps : ℕ → List Text → List (Node Event C)
  unfolding step_number
  flow_steps index [] = []
  flow_steps index (s ∷ ss) =
      el "span" [] (el "b" [] (text (step_number index) ∷ []) ∷ text s ∷ [])
      ∷ flow_steps (suc index) ss

  unfoldable pub intro : Node Event C
  unfolding flow_steps
  intro = el "section" (class "intro" ∷ []) (
      el "div" (class "intro-copy" ∷ []) (
        el "p" (class "overline" ∷ []) (words "Persisted market observations · UTC normalized" ∷ [])
        ∷ el "h1" [] (
            words "Oil benchmarks,"
            ∷ el "br" [] []
            ∷ el "em" [] (words "without the noise." ∷ [])
            ∷ [])
        ∷ el "p" [] (
            words
              "WTI, Brent і RBOB в одному дослідницькому просторі. Інтерфейс читає лише перевірені записи з PostgreSQL — жодних прямих запитів до market API."
            ∷ [])
        ∷ [])
      ∷ el "aside" (class "protocol-card" ∷ []) (
          el "span" (class "protocol-icon" ∷ []) (icon "Gauge" 20 ∷ [])
          ∷ el "div" [] (
              el "p" [] (words "Collection cadence" ∷ [])
              ∷ el "strong" [] (words "4 snapshots / day" ∷ [])
              ∷ el "span" [] (words "00:00 · 06:00 · 12:00 · 18:00 UTC" ∷ [])
              ∷ [])
          ∷ el "div" (class "protocol-flow" ∷ [])
              (flow_steps 0 (codes "API" ∷ codes "AMQP" ∷ codes "DB" ∷ codes "UI" ∷ []))
          ∷ [])
      ∷ [])

  unfoldable pub site_footer : Node Event C
  site_footer = el "footer" (class "site-footer" ∷ []) (
      el "div" [] (
        icon "Database" 15
        ∷ el "span" [] (words "PostgreSQL is the market-data source of truth" ∷ [])
        ∷ [])
      ∷ el "span" [] (words "OilPriceAPI → Go Fetcher → PGMQ → History → PostgreSQL → UI" ∷ [])
      ∷ el "b" [] (words "PS / 03" ∷ [])
      ∷ [])
