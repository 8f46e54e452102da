-- ===== src/App/Page/Safe.antt =====
-- The page over the whole life of the component.
use push_and_pray.Prelude.{List, All}
use push_and_pray.Js.Outcome.{Returns}
use push_and_pray.Types.{Observation}
use push_and_pray.Platform.{Dates, Number}
use push_and_pray.App.Session.{initial, Event, run}
use push_and_pray.App.Session.Data.{Brings, run-Has}
use push_and_pray.App.Page.Returns.{IsShowable, IsShowableCard, page-Returns}
use push_and_pray.App.Page.Render.{page}

module _ ⦃d : Dates⦄ where
  -- What the server sends can be shown.
  abbrev pub AreShowable : List Observation → List Observation → Type 0
  AreShowable observations latest = All IsShowable observations × All IsShowableCard latest

  module _ (W : Type 0) ⦃n : Number W⦄ where
    -- Whatever the user, the timers and the network do, in whatever order, the page is rendered without an
    -- exception in every state that the component reaches, if in all market data that arrive no observation
    -- has a code or a unit that is a name `{}` inherits, no latest observation has such a code, and the
    -- dates that the cards and the ledger show can be read.
    pub run-page-Returns :
        (es : List Event) → All (Brings AreShowable) es → Returns (page W (run initial es))
    run-page-Returns es h =
        let (observations, latest) =
          run-Has AreShowable es initial h (unfold initial in (tt, tt)) in
        page-Returns W (run initial es) observations latest
