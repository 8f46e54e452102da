-- ===== src/App/Session/Kept.antt =====
-- The changes of the preferences among the events, and the requests of the saves.
use push_and_pray.Prelude.{
  ◌≡◌, refl, ap, ◌∙◌, Bool, true, false, Option, none, some, List, [], ◌∷◌, ◌++◌, Bool-cases, inl,
  inr, arith,
}
use push_and_pray.Prelude.Text.{Text}
use push_and_pray.Types.{
  Preferences, RangeValue, Metric, Layout, ChartStyle, TableOrder, TableLimit, Scale, MovingAverage,
}
use push_and_pray.Api.{fulfilled, failed}
use push_and_pray.App.Session.{
  Session, initial, Update, set_selected, set_range, set_metric, set_layout, set_style,
  set_table_order, set_table_limit, set_scale, set_moving_average, set_smooth, Event, bootstrapped,
  updated, timer_fired, save_settled, refresh_clicked, try_again_clicked, refresh_settled,
  unmounted, save_effect, update_preference, react, step, run,
}
use push_and_pray.App.Session.Invariant.{IsSound, initial-IsSound, step-IsSound, run-IsSound}
use push_and_pray.App.Session.Refinement.{sent_in, run-IsFaithful}

-- The value that was chosen last, or the one from before if none was.
last_choice : {T : Type 0} → (Update → Option T) → T → List Update → T
last_choice choice before [] = before
last_choice choice before (u ∷ us) =
    last_choice choice (elim (choice u) [ none ↦ before | some v ↦ v ]) us

-- The value that an update chooses of each preference.
abbrev selected_in : Update → Option (Option (List Text))
selected_in (set_selected v) = some (some v)
selected_in _ = none

abbrev range_in : Update → Option RangeValue
range_in (set_range v) = some v
range_in _ = none

abbrev metric_in : Update → Option Metric
metric_in (set_metric v) = some v
metric_in _ = none

abbrev layout_in : Update → Option Layout
layout_in (set_layout v) = some v
layout_in _ = none

abbrev style_in : Update → Option ChartStyle
style_in (set_style v) = some v
style_in _ = none

abbrev table_order_in : Update → Option TableOrder
table_order_in (set_table_order v) = some v
table_order_in _ = none

abbrev table_limit_in : Update → Option TableLimit
table_limit_in (set_table_limit v) = some v
table_limit_in _ = none

abbrev scale_in : Update → Option Scale
scale_in (set_scale v) = some v
scale_in _ = none

abbrev moving_average_in : Update → Option MovingAverage
moving_average_in (set_moving_average v) = some v
moving_average_in _ = none

abbrev smooth_in : Update → Option Bool
smooth_in (set_smooth v) = some v
smooth_in _ = none

-- Each preference as it was chosen last.
pub chosen : Preferences → List Update → Preferences
unfolding last_choice
chosen p us = record {
  selected = last_choice selected_in p.selected us;
  range = last_choice range_in p.range us;
  metric = last_choice metric_in p.metric us;
  layout = last_choice layout_in p.layout us;
  style = last_choice style_in p.style us;
  table_order = last_choice table_order_in p.table_order us;
  table_limit = last_choice table_limit_in p.table_limit us;
  scale = last_choice scale_in p.scale us;
  moving_average = last_choice moving_average_in p.moving_average us;
  smooth = last_choice smooth_in p.smooth us;
}

-- The changes that the user makes.
abbrev pub changes : List Event → List Update
changes [] = []
changes (updated u ∷ es) = u ∷ changes es
changes (bootstrapped p m now ∷ es) = changes es
changes (timer_fired ∷ es) = changes es
changes (save_settled i r ∷ es) = changes es
changes (refresh_clicked ∷ es) = changes es
changes (try_again_clicked ∷ es) = changes es
changes (refresh_settled m now ∷ es) = changes es
changes (unmounted ∷ es) = changes es

chosen-update :
    (u : Update) (us : List Update) (p : Preferences)
    → chosen (update_preference u p) us ≡ chosen p (u ∷ us)
unfolding chosen update_preference
chosen-update (set_selected v) us p = refl
chosen-update (set_range v) us p = refl
chosen-update (set_metric v) us p = refl
chosen-update (set_layout v) us p = refl
chosen-update (set_style v) us p = refl
chosen-update (set_table_order v) us p = refl
chosen-update (set_table_limit v) us p = refl
chosen-update (set_scale v) us p = refl
chosen-update (set_moving_average v) us p = refl
chosen-update (set_smooth v) us p = refl

-- What an event makes of the preferences, once the bootstrap has succeeded.
abbrev after_change : Event → Preferences → Preferences
after_change (updated u) p = update_preference u p
after_change _ p = p

chosen-after_change :
    (e : Event) (es : List Event) (p : Preferences)
    → chosen (after_change e p) (changes es) ≡ chosen p (changes (e ∷ es))
chosen-after_change (updated u) es p = chosen-update u (changes es) p
chosen-after_change (bootstrapped q m now) es p = refl
chosen-after_change timer_fired es p = refl
chosen-after_change (save_settled i r) es p = refl
chosen-after_change refresh_clicked es p = refl
chosen-after_change try_again_clicked es p = refl
chosen-after_change (refresh_settled m now) es p = refl
chosen-after_change unmounted es p = refl

step-after_change :
    (e : Event) (s : Session)
    → IsSound s
    → s.is_ready ≡ true
    → (step e s).mounted ≡ true
    → (s.mounted ≡ true)
      × ((step e s).is_ready ≡ true)
      × ((step e s).preferences ≡ after_change e s.preferences)
unfolding step react
step-after_change (bootstrapped p (fulfilled m) now) s h r up = ground arith
step-after_change (bootstrapped p (failed f) now) s h r up = ground arith
step-after_change (updated u) s h r up = unfold save_effect in ground arith
step-after_change timer_fired s h r up = ground arith
step-after_change (save_settled i (fulfilled p)) s h r up = ground arith
step-after_change (save_settled i (failed f)) s h r up = ground arith
step-after_change refresh_clicked s h r up = ground arith
step-after_change try_again_clicked s h r up = ground arith
step-after_change (refresh_settled (fulfilled m) now) s h r up = ground arith
step-after_change (refresh_settled (failed f) now) s h r up = ground arith
step-after_change unmounted s h r up = ground arith

step_unmounted : (e : Event) (s : Session) → s.mounted ≡ false → (step e s).mounted ≡ false
unfolding step
step_unmounted e s down = ground arith

run_unmounted : (es : List Event) (s : Session) → s.mounted ≡ false → (run s es).mounted ≡ false
unfolding run
run_unmounted [] s down = down
run_unmounted (e ∷ es) s down = run_unmounted es (step e s) (step_unmounted e s down)

-- What is mounted in the end was mounted before.
mounted_before : (es : List Event) (s : Session) → (run s es).mounted ≡ true → s.mounted ≡ true
mounted_before es s up = elim (Bool-cases s.mounted) [
  | inl now ↦ now
  | inr down ↦ let gone = run_unmounted es s down in cc
]

run-chosen :
    (es : List Event) (s : Session)
    → IsSound s
    → s.is_ready ≡ true
    → (run s es).mounted ≡ true
    → ((run s es).is_ready ≡ true) × ((run s es).preferences ≡ chosen s.preferences (changes es))
unfolding run
run-chosen [] s h r up = (r, unfold chosen last_choice in refl)
run-chosen (e ∷ es) s h r up =
    let (_, ready, same) = step-after_change e s h r (mounted_before es (step e s) up) in
    let (ready', kept) = run-chosen es (step e s) (step-IsSound e s h) ready up in
    (ready', kept ∙ ap (λ p. chosen p (changes es)) same ∙ chosen-after_change e es s.preferences)

run-append :
    (before after : List Event) (s : Session) → run s (before ++ after) ≡ run (run s before) after
unfolding run
run-append [] after s = refl
run-append (e ∷ es) after s = run-append es after (step e s)

-- Once the bootstrap has succeeded, no change is left unsent: when more events have followed and no
-- timer is pending in a component that is still mounted, the last request that was sent holds each
-- preference as the user chose it last among these events, or as it was before them where none of
-- them changed it. The theorem is about what is sent, not about whether the server stores it.
pub run-sends_changes :
    (before after : List Event)
    → let s = run initial before in
      let t = run s after in
      s.is_ready ≡ true
      → t.mounted ≡ true
      → t.timer ≡ none
      → (older : List Preferences) × (sent_in [] initial (before ++ after)
          ≡ chosen s.preferences (changes after) ∷ older)
run-sends_changes before after ready up idle =
    let s = run initial before in
    let joined = run-append before after initial in
    let (ready', kept) = run-chosen after s (run-IsSound before initial initial-IsSound) ready up in
    let (older, sent) =
      run-IsFaithful (before ++ after) (ap (λ t. t.is_ready) joined ∙ ready')
        (ap (λ t. t.mounted) joined ∙ up) (ap (λ t. t.timer) joined ∙ idle) in
    (older, sent ∙ ap (λ p. p ∷ older) (ap (λ t. t.preferences) joined ∙ kept))
