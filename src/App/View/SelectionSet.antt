-- ===== src/App/View/SelectionSet.antt =====
-- The selection as a set of codes: a quotient of the lists that forgets order and repetition.
use mathlib.Core.Quot
use mathlib.Core.Quot.{Quot, Quot-set}
use push_and_pray.Prelude.{◌≡◌, refl, ap, true, List, [], ◌∷◌, arith, select}
use push_and_pray.Prelude.Text.{Text, text_eq_iff}
use push_and_pray.Js.Eq.{text_key}
use push_and_pray.Js.KeyMap.{has}
use push_and_pray.Types.{Observation, RangeValue}
use push_and_pray.Platform.{Dates}
use push_and_pray.Data.Visible.{filter_visible, cut, range_days}
use push_and_pray.App.Session.{Session, updated, step}
use push_and_pray.App.View.{selected_codes, toggled, toggle_instrument, visible}
use push_and_pray.App.View.Selection.{has-toggled}

-- Two lists select the same codes.
abbrev pub SameCodes : List Text → List Text → Type 0
SameCodes xs ys = (code : Text) → has xs code ≡ has ys code

abbrev pub Selection : Type 0
Selection = Quot SameCodes

toggled-SameCodes :
    (code : Text) (xs ys : List Text)
    → SameCodes xs ys
    → SameCodes (toggled xs code) (toggled ys code)
toggled-SameCodes code xs ys h d =
    rw (has-toggled xs code d, has-toggled ys code d, h code, h d) refl

-- `toggleInstrument` on selections.
pub toggle : Text → Selection → Selection
toggle code =
    Quot.lift Quot-set (λ xs. Quot.mk (toggled xs code))
      (λ xs ys h. Quot.sound (toggled-SameCodes code xs ys h))

twice : (code : Text) (xs : List Text) → SameCodes (toggled (toggled xs code) code) xs
twice code xs d =
    rw (has-toggled (toggled xs code) code d, has-toggled xs code d, has-toggled xs code code)
      (ground (arith, text_eq_iff code d, text_eq_iff code code))

swapped :
    (a b : Text) (xs : List Text) → SameCodes (toggled (toggled xs a) b) (toggled (toggled xs b) a)
swapped a b xs d =
    rw
      (
        has-toggled (toggled xs a) b d,
        has-toggled (toggled xs b) a d,
        has-toggled xs a d,
        has-toggled xs b d,
        has-toggled xs a b,
        has-toggled xs b a,
      )
      (ground (arith, text_eq_iff a d, text_eq_iff b d, text_eq_iff a b, text_eq_iff b a))

-- On selections as sets of codes, toggling a code twice gives the selection back, and two codes may
-- be toggled in either order.
pub toggle-toggle :
    (a b : Text) (q : Selection)
    → (toggle a (toggle a q) ≡ q) × (toggle a (toggle b q) ≡ toggle b (toggle a q))
unfolding toggle
toggle-toggle a b q = (
  Quot.ind (λ x. Quot-set (toggle a (toggle a x)) x) (λ xs. Quot.sound (twice a xs)) q,
  Quot.ind (λ x. Quot-set (toggle a (toggle b x)) (toggle b (toggle a x)))
      (λ xs. Quot.sound (swapped b a xs)) q,
)

module _ ⦃d : Dates⦄ where
  matching-SameCodes :
      (items : List Observation) (xs ys : List Text)
      → SameCodes xs ys
      → select (λ item. has xs item.instrument_code) items
        ≡ select (λ item. has ys item.instrument_code) items
  matching-SameCodes [] xs ys h = refl
  matching-SameCodes (x ∷ items) xs ys h =
      rw (h x.instrument_code, matching-SameCodes items xs ys h) refl

  -- What is visible depends on the set of selected codes alone.
  pub filter_visible-SameCodes :
      (items : List Observation) (xs ys : List Text) (range : RangeValue)
      → SameCodes xs ys
      → filter_visible items xs range ≡ filter_visible items ys range
  unfolding filter_visible
  filter_visible-SameCodes items xs ys range h =
      ap (cut (range_days range)) (matching-SameCodes items xs ys h)

  -- What a tick changes of what is visible.
  tick :
      (s : Session) (code : Text)
      → s.mounted ≡ true
      → let t = step (updated (toggle_instrument s code)) s in
        (t.mounted ≡ true)
        × (selected_codes t.preferences ≡ toggled (selected_codes s.preferences) code)
        × (t.preferences.range ≡ s.preferences.range)
        × (t.observations ≡ s.observations)
  unfolding step toggle_instrument
  tick s code up = ground arith

  -- In a mounted component, toggling the box of an instrument and toggling it again shows the same
  -- observations as before.
  pub visible-toggled_twice :
      (s : Session) (code : Text)
      → s.mounted ≡ true
      → let t = step (updated (toggle_instrument s code)) s in
        visible (step (updated (toggle_instrument t code)) t) ≡ visible s
  unfolding visible step
  visible-toggled_twice s code up =
      let t = step (updated (toggle_instrument s code)) s in
      let (up', once, range, kept) = tick s code up in
      let (_, again, range', kept') = tick t code up' in
      rw (again, once, range', range, kept', kept)
        (filter_visible-SameCodes s.observations _ (selected_codes s.preferences)
          s.preferences.range (twice code (selected_codes s.preferences)))
