-- ===== src/App/Session/Data.antt =====
-- Where the data of a component come from: from the market data of its events.
use push_and_pray.Prelude.{Bool, true, false, if◌then◌else◌, List, [], ◌∷◌, All, arith}
use push_and_pray.Types.{Observation}
use push_and_pray.Api.{MarketData, Settled, fulfilled, failed}
use push_and_pray.App.Session.{
  Session, Event, bootstrapped, updated, timer_fired, save_settled, refresh_clicked,
  try_again_clicked, refresh_settled, unmounted, save_effect, finish_bootstrap, react, step, run,
}

module _ (P : List Observation → List Observation → Type 0) where
  -- The market data of an event have the property, if it brings some.
  abbrev pub BringsMarket : Settled MarketData → Type 0
  BringsMarket (fulfilled market) = P market.observations market.latest
  BringsMarket (failed f) = Unit

  abbrev pub Brings : Event → Type 0
  Brings (bootstrapped stored market now) = BringsMarket market
  Brings (refresh_settled market now) = BringsMarket market
  Brings _ = Unit

  abbrev Has : Session → Type 0
  Has s = P s.observations s.latest

  either-Has : (b : Bool) (s t : Session) → Has s → Has t → Has (if b then s else t)
  either-Has true s t h k = h
  either-Has false s t h k = k

  react-Has : (e : Event) (s : Session) → Brings e → Has s → Has (react e s)
  unfolding react
  react-Has (bootstrapped p (fulfilled m) now) s b h =
      either-Has s.bootstrapping (finish_bootstrap p (fulfilled m) now s) s
        (unfold finish_bootstrap save_effect in b) h
  react-Has (bootstrapped p (failed f) now) s b h = ground (arith, h)
  react-Has (updated u) s b h = unfold save_effect in ground (arith, h)
  react-Has timer_fired s b h = ground (arith, h)
  react-Has (save_settled i p) s b h = ground (arith, h)
  react-Has refresh_clicked s b h = ground (arith, h)
  react-Has try_again_clicked s b h = ground (arith, h)
  react-Has (refresh_settled (fulfilled m) now) s b h = ground (arith, b, h)
  react-Has (refresh_settled (failed f) now) s b h = ground (arith, h)
  react-Has unmounted s b h = h

  step-Has : (e : Event) (s : Session) → Brings e → Has s → Has (step e s)
  unfolding step
  step-Has e s b h = either-Has s.mounted (react e s) s (react-Has e s b h) h

  -- What holds of a component's data, and of all market data that arrive, holds of its data after any run.
  pub run-Has : (es : List Event) (s : Session) → All Brings es → Has s → Has (run s es)
  unfolding run
  run-Has [] s b h = h
  run-Has (e ∷ es) s b h = run-Has es (step e s) b.1 (step-Has e s b.0 h)
