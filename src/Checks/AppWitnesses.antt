-- ===== src/Checks/AppWitnesses.antt =====
-- The theorems on App.tsx and api.ts at concrete inputs.
use push_and_pray.Prelude.{◌≡◌, Bool, refl, false, none, some, [], ◌∷◌, ◌++◌, map}
use push_and_pray.Prelude.Int.{pos}
use push_and_pray.Prelude.Text.{codes}
use push_and_pray.Js.Eq.{text_key}
use push_and_pray.Types.{days_7, LoadState, Json, flag}
use push_and_pray.Platform.Samples.{instruments, decimal_dates, whole_numbers, rows}
use push_and_pray.Checks.Samples.{market, stored, live, some_events}
use push_and_pray.Api.{save_preferences_request, an_error, other, fulfilled, failed}
use push_and_pray.Js.Outcome.{Outcome, returns, throws}
use push_and_pray.Api.Server.{payload}
use push_and_pray.Api.Server.Laws.{payload-save}
use push_and_pray.Api.Join.{
  loi, arrange, first_failure, load_market_data, expected, load_market_data-expected,
}
use push_and_pray.App.Session.{
  Session, saved, initial, set_range, set_smooth, update_preference, bootstrapped, updated,
  timer_fired, save_settled, refresh_clicked, try_again_clicked, refresh_settled, step, run,
}
use push_and_pray.App.Session.Invariant.{IsSound, initial-IsSound, run-IsSound}
use push_and_pray.App.Session.Saving.{update_all, burst_saves_once, saved_before_sent}
use push_and_pray.App.Session.Bootstrap.{
  bootstrapped-saves, bootstrapped_drops_updates, run-bootstrap_failed,
}
use push_and_pray.App.Session.Refresh.{run-refreshed}

run-IsSound_example : IsSound (run initial some_events)
run-IsSound_example = run-IsSound some_events initial initial-IsSound

burst_saves_once_example :
    let t =
      run live (map updated (set_range days_7 ∷ set_smooth false ∷ []) ++ (timer_fired ∷ [])) in
    (t.saves ≡ update_all (set_range days_7 ∷ set_smooth false ∷ []) live.preferences ∷ live.saves)
    × (t.timer ≡ none)
unfolding live
burst_saves_once_example =
    burst_saves_once (set_range days_7) (set_smooth false ∷ []) live (refl, refl)

saved_before_sent_example :
    let t = step (save_settled 0 (fulfilled stored)) (step (updated (set_range days_7)) live) in
    (t.session_state ≡ saved)
    × (t.timer ≡ some (update_preference (set_range days_7) live.preferences))
    × (t.saves ≡ [])
unfolding live
saved_before_sent_example = saved_before_sent (set_range days_7) stored live (refl, refl) refl

run-bootstrap_failed_example :
    let t = run (step (bootstrapped (fulfilled stored) (failed other) (pos 5)) initial) (
      try_again_clicked
      ∷ refresh_settled (fulfilled market) (pos 6)
      ∷ updated (set_range days_7)
      ∷ timer_fired
      ∷ []) in
    (t.is_ready ≡ false) × (t.timer ≡ none) × (t.saves ≡ [])
unfolding initial
run-bootstrap_failed_example =
    run-bootstrap_failed (fulfilled stored) other (pos 5) initial _ refl refl refl refl refl

bootstrapped-saves_example :
    let sent =
      run initial (bootstrapped (fulfilled stored) (fulfilled market) (pos 5) ∷ timer_fired ∷ []) in
    let kept = step (save_settled 0 (fulfilled stored)) sent in
    (sent.preferences ≡ stored)
    × (sent.saves ≡ stored ∷ [])
    × (sent.timer ≡ none)
    × (sent.observations ≡ rows)
    × (sent.latest ≡ rows)
    × (sent.instruments ≡ instruments)
    × (sent.last_read ≡ some (pos 5))
    × (sent.load_state ≡ LoadState.ready)
    × (kept.preferences ≡ stored)
    × (kept.saves ≡ [])
    × (kept.timer ≡ none)
    × (kept.session_state ≡ saved)
unfolding initial stored
bootstrapped-saves_example =
    bootstrapped-saves (fulfilled stored) market (pos 5) stored initial refl refl refl

bootstrapped_drops_updates_example :
    (step
      (bootstrapped (fulfilled stored) (fulfilled market) (pos 5))
      (step (updated (set_range days_7)) initial)).preferences
    ≡ (step (bootstrapped (fulfilled stored) (fulfilled market) (pos 5)) initial).preferences
unfolding initial
bootstrapped_drops_updates_example =
    bootstrapped_drops_updates (set_range days_7) (fulfilled stored) market (pos 5) initial refl
      refl refl

abbrev idle : Session
unfolding live
idle = record live { refreshing = false }

run-refreshed_example :
    run idle (refresh_clicked ∷ refresh_settled (failed (an_error (codes "503 "))) (pos 9) ∷ [])
    ≡ record idle { error_message = codes "503 " }
unfolding idle
run-refreshed_example = run-refreshed (failed (an_error (codes "503 "))) (pos 9) idle refl refl

-- A reading of a `bool` that takes nothing but JSON Booleans.
abbrev only_flags : Json → Outcome Bool
only_flags (flag b) = returns b
only_flags _ = throws

payload-save_example : payload only_flags (save_preferences_request stored) ≡ returns stored
unfolding stored
payload-save_example = payload-save only_flags (λ b. refl) stored

load_market_data-expected_example :
    expected
      (first_failure
        (arrange loi (fulfilled rows) (failed other) (failed (an_error (codes "503 ")))))
      (fulfilled rows)
      (failed other)
      (failed (an_error (codes "503 ")))
    ≡ some (
        load_market_data
          (arrange loi (fulfilled rows) (failed other) (failed (an_error (codes "503 ")))))
load_market_data-expected_example =
    load_market_data-expected loi (fulfilled rows) (failed other) (failed (an_error (codes "503 ")))
