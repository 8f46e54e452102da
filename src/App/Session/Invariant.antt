-- ===== src/App/Session/Invariant.antt =====
-- What holds of the component between any two events.
use push_and_pray.Prelude.{◌≡◌, ◌≢◌, ◌<◌, ◌⊎◌, true, false, none, some, List, [], ◌∷◌, arith}
use push_and_pray.Types.{ready}
use push_and_pray.Api.{fulfilled, failed}
use push_and_pray.App.Session.{
  Session, saving, initial, Event, bootstrapped, updated, timer_fired, save_settled,
  refresh_clicked, try_again_clicked, refresh_settled, unmounted, react, step, run,
}

pub record IsSound (s : Session) : Type 0 where
  -- The selection is known once the bootstrap has succeeded.
  pub selected : s.is_ready ≡ true → s.preferences.selected ≢ none
  -- A pending timer will save the preferences that are shown.
  pub current : (s.timer ≡ none) ⊎ (s.timer ≡ some s.preferences)
  -- Nothing is scheduled or sent before the bootstrap has succeeded.
  pub quiet : s.is_ready ≡ false → (s.timer ≡ none) × (s.saves ≡ [])
  -- Data that is shown as present has been read.
  pub read : s.load_state ≡ ready → s.last_read ≢ none
  pub ready_read : s.is_ready ≡ true → s.last_read ≢ none
  -- Once the bootstrap has succeeded, and as long as the component is shown, "Saving session" is
  -- shown only while a save is ahead or under way.
  pub busy :
      s.is_ready ≡ true
      → s.mounted ≡ true
      → s.session_state ≡ saving
      → (s.timer ≢ none) ⊎ (s.saves ≢ [])
  pub booting : s.bootstrapping ≡ true → s.is_ready ≡ false
  pub refreshes : s.refreshing ≡ true → 0 < s.refreshes

pub initial-IsSound : IsSound initial
unfolding initial
initial-IsSound = ground arith

react-IsSound : (e : Event) (s : Session) → IsSound s → IsSound (react e s)
unfolding react
react-IsSound (bootstrapped p (fulfilled m) now) s h = ground arith
react-IsSound (bootstrapped p (failed f) now) s h = ground arith
react-IsSound (updated u) s h = ground arith
react-IsSound timer_fired s h = ground arith
react-IsSound (save_settled i (fulfilled p)) s h = ground arith
react-IsSound (save_settled i (failed f)) s h = ground arith
react-IsSound refresh_clicked s h = ground arith
react-IsSound try_again_clicked s h = ground arith
react-IsSound (refresh_settled (fulfilled m) now) s h = ground arith
react-IsSound (refresh_settled (failed f) now) s h = ground arith
react-IsSound unmounted s h = ground arith

pub step-IsSound : (e : Event) (s : Session) → IsSound s → IsSound (step e s)
unfolding step
step-IsSound e s h = ground (arith, react-IsSound e s h)

-- Whatever the user, the timers and the network do, in whatever order, a component that is sound
-- stays sound. That is: before the bootstrap has succeeded, no save is scheduled or under way; once it
-- has succeeded, the selection is known and data have been read, and while the component is also
-- mounted, the state "saving" means that a timer is pending or a save under way. A pending timer holds
-- the preferences that are shown, the load state "ready" means that data have been read, a bootstrap
-- under way has not succeeded yet, and the refresh button is disabled only while a refresh is under way.
pub run-IsSound : (es : List Event) (s : Session) → IsSound s → IsSound (run s es)
unfolding run
run-IsSound [] s h = h
run-IsSound (e ∷ es) s h = run-IsSound es (step e s) (step-IsSound e s h)
