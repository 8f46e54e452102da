-- ===== src/App/Session/Refresh.antt =====
-- What a refresh changes and what it leaves alone.
use push_and_pray.Prelude.{List, ◌∷◌, All, ◌≡◌, true, false, some, [], arith}
use push_and_pray.Prelude.Int.{ℤ}
use push_and_pray.Types.{LoadState}
use push_and_pray.Api.{Settled, fulfilled, failed, MarketData}
use push_and_pray.App.Session.{
  Session, message_of, refresh_settled, refresh_clicked, try_again_clicked, Event, bootstrapped,
  updated, timer_fired, save_settled, unmounted, step, run,
}

-- The parts of the state that no refresh touches: the preferences and how they are saved.
pub record KeepsSaving (s t : Session) : Type 0 where
  pub preferences : t.preferences ≡ s.preferences
  pub is_ready : t.is_ready ≡ s.is_ready
  pub session_state : t.session_state ≡ s.session_state
  pub timer : t.timer ≡ s.timer
  pub saves : t.saves ≡ s.saves

abbrev pub IsRefresh : Event → Type 0
IsRefresh refresh_clicked = Unit
IsRefresh try_again_clicked = Unit
IsRefresh (refresh_settled market now) = Unit
IsRefresh _ = ⊥

step-KeepsSaving : (e : Event) (s : Session) → IsRefresh e → KeepsSaving s (step e s)
unfolding step
step-KeepsSaving refresh_clicked s r = ground arith
step-KeepsSaving try_again_clicked s r = ground arith
step-KeepsSaving (refresh_settled (fulfilled market) now) s r = ground arith
step-KeepsSaving (refresh_settled (failed f) now) s r = ground arith
step-KeepsSaving (bootstrapped p m now) s r = elim r [ ]
step-KeepsSaving (updated u) s r = elim r [ ]
step-KeepsSaving timer_fired s r = elim r [ ]
step-KeepsSaving (save_settled i p) s r = elim r [ ]
step-KeepsSaving unmounted s r = elim r [ ]

KeepsSaving-trans : (s t u : Session) → KeepsSaving s t → KeepsSaving t u → KeepsSaving s u
KeepsSaving-trans s t u h k = ground arith

-- However often the page is refreshed, by either button and with whatever results, the preferences,
-- the pending save and the saves under way stay as they are.
pub run-KeepsSaving : (es : List Event) (s : Session) → All IsRefresh es → KeepsSaving s (run s es)
unfolding run
run-KeepsSaving [] s h = ground arith
run-KeepsSaving (e ∷ es) s h =
    KeepsSaving-trans s (step e s) (run (step e s) es) (step-KeepsSaving e s h.0)
      (run-KeepsSaving es (step e s) h.1)

-- The page behind a refresh: on success the data are new and there is no error; on failure there is
-- a new message and nothing else.
abbrev pub refreshed : Settled MarketData → ℤ → Session → Session
refreshed (fulfilled market) now s = record s {
  latest = market.latest;
  observations = market.observations;
  instruments = market.instruments;
  last_read = some now;
  load_state = LoadState.ready;
  error_message = [];
}
refreshed (failed f) now s = record s { error_message = message_of f }

-- A click on "Refresh" in a mounted component where no refresh is under way, and the end of its
-- requests: success shows the new data and clears the error, failure changes the message alone,
-- and in both cases everything else is as before the click.
pub run-refreshed :
    (result : Settled MarketData) (now : ℤ) (s : Session)
    → s.mounted ≡ true
    → s.refreshing ≡ false
    → run s (refresh_clicked ∷ refresh_settled result now ∷ []) ≡ refreshed result now s
unfolding run step
run-refreshed (fulfilled market) now s up idle = ground arith
run-refreshed (failed f) now s up idle = ground arith
