-- ===== src/Checks/SaverWitnesses.antt =====
-- The theorems on saving at concrete runs.
use push_and_pray.Prelude.{◌++◌, arith, ◌≡◌, refl, ◌≢◌, none, false, List, [], ◌∷◌}
use push_and_pray.Prelude.Int.{pos}
use push_and_pray.Types.{Preferences, days_7}
use push_and_pray.Api.{failed, fulfilled, other}
use push_and_pray.App.Session.{
  Session, saving, initial, set_range, set_smooth, Event, bootstrapped, updated, timer_fired,
  save_settled, step, run,
}
use push_and_pray.App.Session.Invariant.{initial-IsSound, run-IsSound}
use push_and_pray.App.Session.Saver.{Moves}
use push_and_pray.App.Session.Refinement.{draft_of, sent_in, run-Moves}
use push_and_pray.App.Session.Kept.{chosen, changes, run-sends_changes}
use push_and_pray.App.Session.Drain.{Answers, answers, run-answers_rest}
use push_and_pray.Checks.Samples.{market, stored, some_events}

run-Moves_example :
    Moves
      (draft_of [] initial)
      (draft_of (sent_in [] initial some_events) (run initial some_events))
run-Moves_example = run-Moves some_events initial [] initial-IsSound

-- A change before the first save, and another one while that save is under way.
abbrev started : List Event
started = bootstrapped (fulfilled stored) (fulfilled market) (pos 5) ∷ []

abbrev two_changes : List Event
two_changes =
    updated (set_range days_7)
    ∷ timer_fired
    ∷ updated (set_smooth false)
    ∷ save_settled 0 (failed other)
    ∷ timer_fired
    ∷ []

run-sends_changes_example :
    (older : List Preferences) × (sent_in [] initial (started ++ two_changes)
      ≡ chosen (run initial started).preferences (changes two_changes) ∷ older)
unfolding initial run step stored
run-sends_changes_example = run-sends_changes started two_changes refl refl refl

-- A save under way, and a change behind it.
abbrev changed_early : List Event
changed_early =
    bootstrapped (fulfilled stored) (fulfilled market) (pos 5)
    ∷ timer_fired
    ∷ updated (set_range days_7)
    ∷ []

busy : Session
unfolding initial run step stored
busy = run initial changed_early

-- The older request is answered first and fails.
abbrev two_answers : Answers
two_answers = (1, failed other) ∷ (0, fulfilled stored) ∷ []

run-answers_rest_example :
    let t = run busy (timer_fired ∷ answers two_answers) in
    (t.timer ≡ none)
    × (t.saves ≡ [])
    × (t.preferences ≡ busy.preferences)
    × (t.session_state ≢ saving)
unfolding busy
run-answers_rest_example =
    run-answers_rest busy two_answers (run-IsSound changed_early initial initial-IsSound) refl refl
      (omega arith, (omega arith, tt))
