-- ===== src/App/Session/Refinement.antt =====
-- The component as a draft with its sent versions.
use push_and_pray.Prelude.{
  ℕ, zero, suc, ◌-◌, ◌≤◌, length, take, ◌≡◌, refl, sym, ap, ◌∙◌, ◌⊎◌, inl, inr, Bool, true, false,
  Option, none, some, Option-cases, Bool-cases, List, [], ◌∷◌, ◌++◌, arith, if◌then◌else◌, subst,
}
use push_and_pray.Types.{Preferences}
use push_and_pray.Api.{fulfilled, failed}
use push_and_pray.App.Session.{
  Session, initial, update_preference, Event, bootstrapped, updated, timer_fired, save_settled,
  refresh_clicked, try_again_clicked, refresh_settled, unmounted, save_effect, finish_bootstrap,
  remove_at, react, step, run,
}
use push_and_pray.App.Session.Invariant.{IsSound, initial-IsSound, step-IsSound}
use push_and_pray.App.Session.Saver.{
  Draft, Move, rest, edit, start, change, send, close, Moves, here, next, IsFaithful,
  Moves-IsFaithful, Moves-trans,
}

abbrev is_some : Option Preferences → Bool
is_some none = false
is_some (some p) = true

abbrev listed : Option Preferences → List Preferences
listed none = []
listed (some p) = p ∷ []

-- What one event sends: the requests that its step adds to those under way.
abbrev pub sent_by : Event → Session → List Preferences
sent_by e s = let after = (step e s).saves in take (length after - length s.saves) after

-- What was sent up to the end of a run, the last one first.
pub sent_in : List Preferences → Session → List Event → List Preferences
sent_in log s [] = log
sent_in log s (e ∷ es) = sent_in (sent_by e s ++ log) (step e s) es

-- The draft that a component with its sent versions is.
abbrev pub draft_of : List Preferences → Session → Draft
draft_of log s = record {
  current = s.preferences;
  is_started = s.is_ready;
  is_open = s.mounted;
  is_unsent = is_some s.timer;
  sent = log;
}

Move-of_eq : {d e f : Draft} → Move d e → f ≡ e → Move d f
Move-of_eq {d} m same = subst (Move d) (sym same) m

-- At a timer that fires, the preferences that it holds.
due : Event → Session → List Preferences
due timer_fired s = if s.mounted then listed s.timer else []
due _ s = []

react-Move :
    (e : Event) (s : Session) (log : List Preferences)
    → IsSound s
    → s.mounted ≡ true
    → Move (draft_of log s) (draft_of (due e s ++ log) (react e s))
unfolding react due
react-Move (bootstrapped p (fulfilled m) now) s log h up = elim (Bool-cases s.bootstrapping) [
  | inl b ↦
      Move-of_eq (start (finish_bootstrap p (fulfilled m) now s).preferences (h.booting b))
        (ground arith)
  | inr b ↦ Move-of_eq rest (ground arith)
]
react-Move (bootstrapped p (failed f) now) s log h up = Move-of_eq rest (ground arith)
react-Move (updated u) s log h up = elim (Bool-cases s.is_ready) [
  | inl r ↦
      Move-of_eq (change (update_preference u s.preferences) r) (unfold save_effect in ground arith)
  | inr r ↦
      Move-of_eq (edit (update_preference u s.preferences) r) (unfold save_effect in ground arith)
]
react-Move timer_fired s log h up = elim (Option-cases s.timer) [
  | inl t ↦ Move-of_eq rest (ground arith)
  | inr (p, t) ↦ Move-of_eq (send (rw t)) (ground arith)
]
react-Move (save_settled i (fulfilled p)) s log h up = Move-of_eq rest (ground arith)
react-Move (save_settled i (failed f)) s log h up = Move-of_eq rest (ground arith)
react-Move refresh_clicked s log h up = Move-of_eq rest (ground arith)
react-Move try_again_clicked s log h up = Move-of_eq rest (ground arith)
react-Move (refresh_settled (fulfilled m) now) s log h up = Move-of_eq rest (ground arith)
react-Move (refresh_settled (failed f) now) s log h up = Move-of_eq rest (ground arith)
react-Move unmounted s log h up = close

step-eq-react : (e : Event) (s : Session) → s.mounted ≡ true → step e s ≡ react e s
unfolding step
step-eq-react e s up = ground arith

step_closed : (e : Event) (s : Session) → s.mounted ≡ false → step e s ≡ s
unfolding step
step_closed e s down = ground arith

due_closed : (e : Event) (s : Session) → s.mounted ≡ false → due e s ≡ []
unfolding due
due_closed timer_fired s down = ground arith
due_closed _ s down = refl

step-Move_due :
    (e : Event) (s : Session) (log : List Preferences)
    → IsSound s
    → Move (draft_of log s) (draft_of (due e s ++ log) (step e s))
step-Move_due e s log h = elim (Bool-cases s.mounted) [
  | inl up ↦
      Move-of_eq (react-Move e s log h up) (ap (draft_of (due e s ++ log)) (step-eq-react e s up))
  | inr down ↦ Move-of_eq rest (
      ap (draft_of (due e s ++ log)) (step_closed e s down)
      ∙ ap (λ sent. draft_of (sent ++ log) s) (due_closed e s down))
]

added-cons :
    (p : Preferences) (ps : List Preferences) → take (length (p ∷ ps) - length ps) (p ∷ ps) ≡ p ∷ []
added-cons p ps = let one : length (p ∷ ps) - length ps ≡ 1 = omega arith in rw one

added-fewer :
    (ps qs : List Preferences) → length ps ≤ length qs → take (length ps - length qs) ps ≡ []
added-fewer ps qs h = let nothing : length ps - length qs ≡ 0 = omega arith in rw nothing

length-remove_at : (i : ℕ) (ps : List Preferences) → length (remove_at i ps) ≤ length ps
unfolding remove_at
length-remove_at i [] = omega arith
length-remove_at zero (p ∷ ps) = omega arith
length-remove_at (suc i) (p ∷ ps) = omega (arith, length-remove_at i ps)

-- The requests under way after an event that sends nothing.
saves-react :
    (e : Event) (s : Session)
    → due e s ≡ []
    → s.mounted ≡ true
    → length (react e s).saves ≤ length s.saves
unfolding react due
saves-react (bootstrapped p (fulfilled m) now) s h up = ground arith
saves-react (bootstrapped p (failed f) now) s h up = ground arith
saves-react (updated u) s h up = unfold save_effect in ground arith
saves-react timer_fired s h up = ground arith
saves-react (save_settled i (fulfilled p)) s h up = ground (arith, length-remove_at i s.saves)
saves-react (save_settled i (failed f)) s h up = ground (arith, length-remove_at i s.saves)
saves-react refresh_clicked s h up = ground arith
saves-react try_again_clicked s h up = ground arith
saves-react (refresh_settled (fulfilled m) now) s h up = ground arith
saves-react (refresh_settled (failed f) now) s h up = ground arith
saves-react unmounted s h up = ground arith

saves-step : (e : Event) (s : Session) → due e s ≡ [] → length (step e s).saves ≤ length s.saves
saves-step e s h = elim (Bool-cases s.mounted) [
  | inl up ↦ omega (arith, saves-react e s h up, ap (λ t. length t.saves) (step-eq-react e s up))
  | inr down ↦ omega (arith, ap (λ t. length t.saves) (step_closed e s down))
]

due-cases :
    (e : Event) (s : Session)
    → (due e s ≡ []) ⊎ ((p : Preferences) × (due e s ≡ p ∷ []) × ((step e s).saves ≡ p ∷ s.saves))
unfolding due
due-cases timer_fired s = elim (Bool-cases s.mounted) [
  | inl up ↦ elim (Option-cases s.timer) [
    | inl t ↦ inl (ground arith)
    | inr (p, t) ↦ inr (p, ground arith, unfold step react in ground arith)
  ]
  | inr down ↦ inl (ground arith)
]
due-cases (bootstrapped p m now) s = inl refl
due-cases (updated u) s = inl refl
due-cases (save_settled i p) s = inl refl
due-cases refresh_clicked s = inl refl
due-cases try_again_clicked s = inl refl
due-cases (refresh_settled m now) s = inl refl
due-cases unmounted s = inl refl

sent_by-eq-due : (e : Event) (s : Session) → sent_by e s ≡ due e s
sent_by-eq-due e s = elim (due-cases e s) [
  | inl e' ↦ added-fewer (step e s).saves s.saves (saves-step e s e') ∙ sym e'
  | inr (p, e', k) ↦ ap (λ l. take (length l - length s.saves) l) k ∙ added-cons p s.saves ∙ sym e'
]

step-Move :
    (e : Event) (s : Session) (log : List Preferences)
    → IsSound s
    → Move (draft_of log s) (draft_of (sent_by e s ++ log) (step e s))
step-Move e s log h =
    Move-of_eq (step-Move_due e s log h)
      (ap (λ sent. draft_of (sent ++ log) (step e s)) (sent_by-eq-due e s))

-- Whatever happens, the component moves as a draft does: its changes, what it sends and when it stops
-- are moves of the draft, from any sound state and in any order of events.
pub run-Moves :
    (es : List Event) (s : Session) (log : List Preferences)
    → IsSound s
    → Moves (draft_of log s) (draft_of (sent_in log s es) (run s es))
unfolding run sent_in
run-Moves [] s log h = here
run-Moves (e ∷ es) s log h =
    Moves-trans (next here (step-Move e s log h))
      (run-Moves es (step e s) (sent_by e s ++ log) (step-IsSound e s h))

initial-IsFaithful : IsFaithful (draft_of [] initial)
unfolding initial
initial-IsFaithful = ground arith

-- In a component that started from the beginning, whose bootstrap has succeeded and that is still
-- mounted, if no timer is pending, the last request that was sent holds the preferences that are
-- shown.
pub run-IsFaithful :
    (es : List Event)
    → let t = run initial es in
      t.is_ready ≡ true
      → t.mounted ≡ true
      → t.timer ≡ none
      → (older : List Preferences) × (sent_in [] initial es ≡ t.preferences ∷ older)
run-IsFaithful es ready up idle =
    let faithful = Moves-IsFaithful initial-IsFaithful (run-Moves es initial [] initial-IsSound) in
    faithful.after ready up (ap is_some idle)
