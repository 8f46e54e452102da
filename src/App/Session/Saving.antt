-- ===== src/App/Session/Saving.antt =====
-- The debounced save.
use push_and_pray.Prelude.{◌≡◌, refl, ap, ◌∙◌, true, none, some, List, [], ◌∷◌, ◌++◌, map, arith}
use push_and_pray.Types.{Preferences}
use push_and_pray.Api.{fulfilled}
use push_and_pray.App.Session.{
  Session, saved, Update, update_preference, Event, updated, timer_fired, save_settled, save_effect,
  react, step, run,
}

pub update_all : List Update → Preferences → Preferences
update_all [] p = p
update_all (u ∷ us) p = update_all us (update_preference u p)

-- A component that has read the stored preferences and is shown.
abbrev pub IsLive : Session → Type 0
IsLive s = (s.mounted ≡ true) × (s.is_ready ≡ true)

step-updated :
    (u : Update) (s : Session)
    → IsLive s
    → IsLive (step (updated u) s)
      × ((step (updated u) s).preferences ≡ update_preference u s.preferences)
      × ((step (updated u) s).saves ≡ s.saves)
      × ((step (updated u) s).timer ≡ some (update_preference u s.preferences))
unfolding step react save_effect
step-updated u s (shown, live) = ground arith

run-updated :
    (us : List Update) (s : Session)
    → IsLive s
    → s.timer ≡ some s.preferences
    → IsLive (run s (map updated us))
      × ((run s (map updated us)).preferences ≡ update_all us s.preferences)
      × ((run s (map updated us)).saves ≡ s.saves)
      × ((run s (map updated us)).timer ≡ some (update_all us s.preferences))
unfolding run update_all
run-updated [] s live pending = (live, refl, refl, pending)
run-updated (u ∷ us) s live pending =
    let (live', shown, kept, timer) = step-updated u s live in
    let s' = step (updated u) s in
    let (live'', shown', kept', timer') = run-updated us s' live' (cc (shown, timer)) in
    (
      live'',
      shown' ∙ ap (update_all us) shown,
      kept' ∙ kept,
      timer' ∙ ap (λ p. some (update_all us p)) shown,
    )

step-timer_fired :
    (s : Session) (p : Preferences)
    → s.mounted ≡ true
    → s.timer ≡ some p
    → ((step timer_fired s).saves ≡ p ∷ s.saves) × ((step timer_fired s).timer ≡ none)
unfolding step
step-timer_fired s p shown pending = ground arith

run-append : (es fs : List Event) (s : Session) → run s (es ++ fs) ≡ run (run s es) fs
unfolding run
run-append [] fs s = refl
run-append (e ∷ es) fs s = run-append es fs (step e s)

-- In a mounted component that has read the stored preferences, a burst of changes that the timer
-- does not interrupt is saved by one request, which holds the preferences after the last change.
pub burst_saves_once :
    (u : Update) (us : List Update) (s : Session)
    → IsLive s
    → let t = run s (map updated (u ∷ us) ++ (timer_fired ∷ [])) in
      (t.saves ≡ update_all (u ∷ us) s.preferences ∷ s.saves) × (t.timer ≡ none)
unfolding run update_all
burst_saves_once u us s live =
    let (live', shown, kept, timer) = step-updated u s live in
    let s' = step (updated u) s in
    let (live'', shown', kept', timer') = run-updated us s' live' (cc (shown, timer)) in
    let fired = step-timer_fired (run s' (map updated us)) _ live''.0 timer' in
    rw (run-append (map updated us) (timer_fired ∷ []) s')
      (fired.0 ∙ (cc (shown, kept, kept')), fired.1)

-- In a mounted component that has read the stored preferences, a change is made while an earlier
-- save is under way: once that one is stored, the indicator says "saved", although the change
-- itself is still waiting for its timer.
pub saved_before_sent :
    (u : Update) (q : Preferences) (s : Session) {p : Preferences} {rest : List Preferences}
    → IsLive s
    → s.saves ≡ p ∷ rest
    → let t = step (save_settled 0 (fulfilled q)) (step (updated u) s) in
      (t.session_state ≡ saved)
      × (t.timer ≡ some (update_preference u s.preferences))
      × (t.saves ≡ rest)
unfolding step save_effect
saved_before_sent u q s (shown, live) sent = ground arith
