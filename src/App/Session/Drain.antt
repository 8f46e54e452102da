-- ===== src/App/Session/Drain.antt =====
-- How saving comes to rest.
use push_and_pray.Prelude.{
  ℕ, zero, suc, ◌<◌, ◌≡◌, refl, ◌≢◌, ◌∙◌, ap, inl, inr, true, none, List, [], ◌∷◌, arith,
}
use push_and_pray.Types.{Preferences}
use push_and_pray.Api.{Settled, fulfilled, failed}
use push_and_pray.App.Session.{
  Session, saving, Event, timer_fired, save_settled, save_count, remove_at, react, step, run,
}
use push_and_pray.App.Session.Invariant.{IsSound, run-IsSound}

-- How requests end: each answer with the place of its request among those under way.
abbrev pub Answers : Type 0
Answers = List (ℕ × Settled Preferences)

-- Each of `n` requests is answered once, in any order.
abbrev pub AreAnswers : ℕ → Answers → Type 0
AreAnswers zero [] = Unit
AreAnswers (suc n) ((i, result) ∷ rest) = (i < suc n) × AreAnswers n rest
AreAnswers _ _ = ⊥

unfoldable pub answers : Answers → List Event
answers [] = []
answers ((i, result) ∷ rest) = save_settled i result ∷ answers rest

-- What stays as it is while answers arrive.
record Awaits (s t : Session) : Type 0 where
  shown : t.mounted ≡ s.mounted
  live : t.is_ready ≡ s.is_ready
  timer : t.timer ≡ s.timer
  preferences : t.preferences ≡ s.preferences

count-remove_at :
    (n i : ℕ) (ps : List Preferences)
    → save_count ps ≡ suc n
    → i < suc n
    → save_count (remove_at i ps) ≡ n
unfolding remove_at
count-remove_at n i [] h k = absurd (omega arith)
count-remove_at n zero (p ∷ ps) h k = omega (arith, h)
count-remove_at zero (suc i) (p ∷ ps) h k = absurd (omega (arith, k))
count-remove_at (suc n) (suc i) (p ∷ ps) h k =
    ap suc (count-remove_at n i ps (omega (arith, h)) (omega (arith, k)))

count-none : (ps : List Preferences) → save_count ps ≡ 0 → ps ≡ []
count-none [] h = refl
count-none (p ∷ ps) h = absurd (omega (arith, h))

step-answer :
    (n i : ℕ) (result : Settled Preferences) (s : Session)
    → s.mounted ≡ true
    → save_count s.saves ≡ suc n
    → i < suc n
    → let t = step (save_settled i result) s in Awaits s t × (t.saves ≡ remove_at i s.saves)
unfolding step react
step-answer n i (fulfilled p) s up under_way h = ground arith
step-answer n i (failed f) s up under_way h = ground arith

run-answers :
    (n : ℕ) (rs : Answers) (s : Session)
    → s.mounted ≡ true
    → save_count s.saves ≡ n
    → AreAnswers n rs
    → Awaits s (run s (answers rs)) × ((run s (answers rs)).saves ≡ [])
unfolding run answers
run-answers zero [] s up under_way h = (ground arith, count-none s.saves under_way)
run-answers zero (r ∷ rs) s up under_way h = elim h [ ]
run-answers (suc n) [] s up under_way h = elim h [ ]
run-answers (suc n) ((i, result) ∷ rs) s up under_way h =
    let (same, fewer) = step-answer n i result s up under_way h.0 in
    let left = ap save_count fewer ∙ count-remove_at n i s.saves under_way h.0 in
    let (same', empty) =
      run-answers n rs (step (save_settled i result) s) (same.shown ∙ up) left h.1 in
    (
      record {
        shown = same'.shown ∙ same.shown;
        live = same'.live ∙ same.live;
        timer = same'.timer ∙ same.timer;
        preferences = same'.preferences ∙ same.preferences;
      },
      empty,
    )

fired :
    (s : Session)
    → s.mounted ≡ true
    → let t = step timer_fired s in
      (t.mounted ≡ true)
      × (t.is_ready ≡ s.is_ready)
      × (t.timer ≡ none)
      × (t.preferences ≡ s.preferences)
unfolding step
fired s up = ground arith

-- When the user stops and every request ends, saving comes to rest: after the timer has fired and each
-- request that is then under way was answered once, in any order and each with success or with
-- failure, a sound component that is mounted and whose bootstrap has succeeded has no timer and no
-- request left, has the preferences that it had, and no longer says "saving".
pub run-answers_rest :
    (s : Session) (rs : Answers)
    → IsSound s
    → s.mounted ≡ true
    → s.is_ready ≡ true
    → AreAnswers (save_count (step timer_fired s).saves) rs
    → let t = run s (timer_fired ∷ answers rs) in
      (t.timer ≡ none)
      × (t.saves ≡ [])
      × (t.preferences ≡ s.preferences)
      × (t.session_state ≢ saving)
unfolding run
run-answers_rest s rs h up ready all =
    let s' = step timer_fired s in
    let es = answers rs in
    let (up', live, idle, shown) = fired s up in
    let (same, empty) = run-answers (save_count s'.saves) rs s' up' refl all in
    let sound = run-IsSound (timer_fired ∷ es) s h in
    let idle' : (run s' es).timer ≡ none = same.timer ∙ idle in
    (
      idle',
      empty,
      same.preferences ∙ shown,
      λ busy. elim (sound.busy (same.live ∙ live ∙ ready) (same.shown ∙ up') busy) [
        | inl pending ↦ pending idle'
        | inr sent ↦ sent empty
      ],
    )
