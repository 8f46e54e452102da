-- ===== src/App/Session/Bootstrap.antt =====
-- How the component starts, and what follows when its first load fails.
use push_and_pray.Prelude.{◌≡◌, true, false, Option, none, some, List, [], ◌∷◌, map, arith}
use push_and_pray.Prelude.Int.{ℤ}
use push_and_pray.Prelude.Text.{Text}
use push_and_pray.Types.{Preferences, ready}
use push_and_pray.Api.{Failure, Settled, fulfilled, failed, MarketData}
use push_and_pray.App.Session.{
  saved, Session, default_preferences, Update, Event, bootstrapped, updated, timer_fired,
  save_settled, refresh_clicked, try_again_clicked, refresh_settled, unmounted, save_effect, react,
  step, run,
}

-- The codes of the instruments that a load found.
abbrev codes_of : MarketData → List Text
codes_of market = map (λ instrument. instrument.code) market.instruments

abbrev chosen : Option (List Text) → MarketData → List Text
chosen none market = codes_of market
chosen (some codes) market = codes

-- What the page shows and saves once it has started: the stored preferences, or the defaults, with
-- every instrument selected where none were stored.
abbrev pub startup_preferences : Settled Preferences → MarketData → Preferences
startup_preferences (fulfilled stored) market = record stored {
  selected = some (chosen stored.selected market);
}
startup_preferences (failed f) market = record default_preferences {
  selected = some (codes_of market);
}

-- A mounted component whose bootstrap is under way and that has sent nothing: when the market data
-- arrive and the timer fires, its observations, latest observations and instruments are those of the
-- market data, read at the time of their arrival, and its load state is "ready". Its preferences are
-- the stored ones, or the defaults if those could not be read, with all instruments selected where no
-- selection was stored, and exactly these are sent. When they are stored, the indicator says "saved",
-- and nothing is left to send.
pub bootstrapped-saves :
    (preference : Settled Preferences) (market : MarketData) (now : ℤ) (q : Preferences)
    (s : Session)
    → s.mounted ≡ true
    → s.bootstrapping ≡ true
    → s.saves ≡ []
    → let shown = startup_preferences preference market in
      let sent = run s (bootstrapped preference (fulfilled market) now ∷ timer_fired ∷ []) in
      let stored = step (save_settled 0 (fulfilled q)) sent in
      (sent.preferences ≡ shown)
      × (sent.saves ≡ shown ∷ [])
      × (sent.timer ≡ none)
      × (sent.observations ≡ market.observations)
      × (sent.latest ≡ market.latest)
      × (sent.instruments ≡ market.instruments)
      × (sent.last_read ≡ some now)
      × (sent.load_state ≡ ready)
      × (stored.preferences ≡ shown)
      × (stored.saves ≡ [])
      × (stored.timer ≡ none)
      × (stored.session_state ≡ saved)
unfolding run step
bootstrapped-saves (fulfilled p) market now q s up booting none_sent = ground arith
bootstrapped-saves (failed f) market now q s up booting none_sent = ground arith

-- A change made while the page was loading is lost: where the component is mounted, its bootstrap
-- under way and nothing ready, a bootstrap with market data results in the same preferences with
-- the change before it as without.
pub bootstrapped_drops_updates :
    (u : Update) (preference : Settled Preferences) (market : MarketData) (now : ℤ) (s : Session)
    → s.mounted ≡ true
    → s.bootstrapping ≡ true
    → s.is_ready ≡ false
    → (step (bootstrapped preference (fulfilled market) now) (step (updated u) s)).preferences
      ≡ (step (bootstrapped preference (fulfilled market) now) s).preferences
unfolding step save_effect
bootstrapped_drops_updates u (fulfilled p) market now s up booting not_ready = ground arith
bootstrapped_drops_updates u (failed f) market now s up booting not_ready = ground arith

-- The component after its bootstrap has failed.
pub record IsStranded (s : Session) : Type 0 where
  pub over : s.bootstrapping ≡ false
  pub never_ready : s.is_ready ≡ false
  pub no_timer : s.timer ≡ none
  pub no_saves : s.saves ≡ []

bootstrap_failed-IsStranded :
    (preference : Settled Preferences) (f : Failure) (now : ℤ) (s : Session)
    → s.mounted ≡ true
    → s.bootstrapping ≡ true
    → s.is_ready ≡ false
    → s.timer ≡ none
    → s.saves ≡ []
    → IsStranded (step (bootstrapped preference (failed f) now) s)
unfolding step
bootstrap_failed-IsStranded preference f now s up booting not_ready quiet none_sent = ground arith

react-IsStranded : (e : Event) (s : Session) → IsStranded s → IsStranded (react e s)
unfolding react
react-IsStranded (bootstrapped p (fulfilled m) now) s h = ground arith
react-IsStranded (bootstrapped p (failed f) now) s h = ground arith
react-IsStranded (updated u) s h = ground arith
react-IsStranded timer_fired s h = ground arith
react-IsStranded (save_settled i (fulfilled p)) s h = ground arith
react-IsStranded (save_settled i (failed f)) s h = ground arith
react-IsStranded refresh_clicked s h = ground arith
react-IsStranded try_again_clicked s h = ground arith
react-IsStranded (refresh_settled (fulfilled m) now) s h = ground arith
react-IsStranded (refresh_settled (failed f) now) s h = ground arith
react-IsStranded unmounted s h = ground arith

step-IsStranded : (e : Event) (s : Session) → IsStranded s → IsStranded (step e s)
unfolding step
step-IsStranded e s h = ground (arith, react-IsStranded e s h)

run-IsStranded : (es : List Event) (s : Session) → IsStranded s → IsStranded (run s es)
unfolding run
run-IsStranded [] s h = h
run-IsStranded (e ∷ es) s h = run-IsStranded es (step e s) (step-IsStranded e s h)

-- Once the bootstrap of a mounted component, of which nothing was ready, scheduled or sent, has
-- failed, no sequence of events ever saves a preference: not a successful "Try again", and not a
-- later change of a control.
pub run-bootstrap_failed :
    (preference : Settled Preferences) (f : Failure) (now : ℤ) (s : Session) (es : List Event)
    → s.mounted ≡ true
    → s.bootstrapping ≡ true
    → s.is_ready ≡ false
    → s.timer ≡ none
    → s.saves ≡ []
    → let t = run (step (bootstrapped preference (failed f) now) s) es in
      (t.is_ready ≡ false) × (t.timer ≡ none) × (t.saves ≡ [])
run-bootstrap_failed preference f now s es up booting not_ready quiet none_sent =
    let h =
      run-IsStranded es _
        (bootstrap_failed-IsStranded preference f now s up booting not_ready quiet none_sent) in
    (h.never_ready, h.no_timer, h.no_saves)
