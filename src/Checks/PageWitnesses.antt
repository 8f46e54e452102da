-- ===== src/Checks/PageWitnesses.antt =====
-- The theorems on the whole page at concrete states.
use push_and_pray.Prelude.{ℕ, ◌≡◌, refl, ◌≢◌, inl, inr, [], ◌∷◌, All, All-imp}
use push_and_pray.Prelude.Int.{◌-ℤ◌}
use push_and_pray.Prelude.Text.{is_empty}
use push_and_pray.Js.Object.{is_inherited, push_own}
use push_and_pray.Js.Outcome.{Outcome, returns, throws, Returns}
use push_and_pray.Types.{LoadState}
use push_and_pray.Platform.Samples.{decimal_dates, whole_numbers, rows, observation}
use push_and_pray.Data.Unique.{minus, happened}
use push_and_pray.Data.Groups.{group_into}
use push_and_pray.Data.Charts.{create_chart_groups}
use push_and_pray.App.Session.{Session, initial, Event, run}
use push_and_pray.Chart.Props.{PanelProps}
use push_and_pray.Markup.{Node, text}
use push_and_pray.Markup.Offers.{offers}
use push_and_pray.App.Page.Render.{page}
use push_and_pray.App.Page.Handlers.{page_events, page-offers}
use push_and_pray.App.Page.Returns.{IsShowable, IsShowableCard}
use push_and_pray.App.Page.Safe.{run-page-Returns}
use push_and_pray.App.Page.Throws.{page-throws}
use push_and_pray.Checks.Samples.{stored, live, some_events}

-- What is rendered, or an empty text after an exception.
abbrev shown : Outcome (Node Event (PanelProps ℕ)) → Node Event (PanelProps ℕ)
shown (returns p) = p
shown throws = text []

page-offers_example : offers (shown (page ℕ live)) ≡ page_events live
unfolding page live group_into is_inherited create_chart_groups stored is_empty ◌-ℤ◌ push_own minus
page-offers_example = page-offers ℕ live refl

showable : All IsShowable rows
unfolding happened is_empty is_inherited
showable = (
  record { plain = (refl, refl); time = tt; collected = tt },
  (
    record { plain = (refl, refl); time = tt; collected = tt },
    (
      record { plain = (refl, refl); time = tt; collected = tt },
      (record { plain = (refl, refl); time = tt; collected = tt }, tt),
    ),
  ),
)

showable_cards : All IsShowableCard rows
showable_cards =
    All-imp IsShowable IsShowableCard rows
      (λ x p. record { plain_code = p.plain.0; card_time = p.time }) showable

run-page-Returns_example : Returns (page ℕ (run initial some_events))
run-page-Returns_example =
    run-page-Returns ℕ some_events
      (tt, ((showable, showable_cards), (tt, (tt, (tt, (tt, (tt, (tt, (tt, tt)))))))))

-- A latest observation without a readable date.
abbrev undated : Session
undated = record live { latest = observation "WTI_USD_BBL" "70" "yesterday" "210" ∷ [] }

ready-ne-loading : LoadState.ready ≢ LoadState.loading
ready-ne-loading h = cc

page-throws_example : page ℕ undated ≡ throws
unfolding live happened is_empty
page-throws_example = page-throws ℕ undated (inr (λ loading. ready-ne-loading loading, inl refl))
