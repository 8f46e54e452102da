-- ===== src/App/View/Selection.antt =====
-- The selection of instruments, and what is visible of it.
use push_and_pray.Prelude.{
  ◌≡◌, refl, ◌<◌, true, false, not, ◌||◌, none, inl, inr, List, [], ◌∷◌, ◌++◌, arith, if◌then◌else◌,
  Bool-cases, select,
}
use push_and_pray.Prelude.Int.{ℤ}
use push_and_pray.Prelude.Text.{Text, text_eq, text_eq_iff}
use push_and_pray.Js.Eq.{text_key}
use push_and_pray.Js.KeyMap.{has}
use push_and_pray.Types.{Observation, Preferences, LoadState}
use push_and_pray.Platform.{Dates}
use push_and_pray.Api.{fulfilled, MarketData}
use push_and_pray.Data.Visible.{filter_visible}
use push_and_pray.Data.Visible.Laws.{matching, filter_visible-eq-select}
use push_and_pray.App.Session.{Session, step, refresh_settled}
use push_and_pray.App.View.{selected_codes, toggled, visible}

has-append : (xs ys : List Text) (d : Text) → has (xs ++ ys) d ≡ (has xs d || has ys d)
unfolding has
has-append [] ys d = refl
has-append (x ∷ xs) ys d = ground (arith, has-append xs ys d)

has-select :
    (code : Text) (xs : List Text) (d : Text)
    → has (select (λ item. not (text_eq item code)) xs) d
      ≡ (if text_eq code d then false else has xs d)
unfolding has
has-select code [] d = ground arith
has-select code (x ∷ xs) d = elim (Bool-cases (text_eq x code)) [
  | inl e ↦
      rw (e, has-select code xs d)
        (ground (arith, text_eq_iff x code, text_eq_iff x d, text_eq_iff code d))
  | inr e ↦
      rw (e, has-select code xs d)
        (ground (arith, text_eq_iff x code, text_eq_iff x d, text_eq_iff code d))
]

-- `toggleInstrument` turns the membership of its code over, and no other's.
pub has-toggled :
    (selected : List Text) (code d : Text)
    → has (toggled selected code) d
      ≡ (if text_eq code d then not (has selected code) else has selected d)
unfolding toggled
has-toggled selected code d = elim (Bool-cases (has selected code)) [
  | inl e ↦ rw e (has-select code selected d)
  | inr e ↦
      rw (e, has-append selected (code ∷ []) d) (unfold has in ground (arith, text_eq_iff code d))
]

module _ ⦃d : Dates⦄ where
  matching-none : (observations : List Observation) → matching observations [] ≡ []
  unfolding has
  matching-none [] = refl
  matching-none (x ∷ xs) = matching-none xs

  filter_visible-none :
      (observations : List Observation) (p : Preferences)
      → p.selected ≡ none
      → filter_visible observations (selected_codes p) p.range ≡ []
  filter_visible-none observations p unknown =
      let nothing : selected_codes p ≡ [] = rw unknown in
      rw (nothing, filter_visible-eq-select observations [] p.range, matching-none observations)

  -- In a mounted component that was never told a selection, as it is after a failed bootstrap, a
  -- refresh that succeeds leads to the state "ready" and reads the data, but no observation is
  -- visible.
  pub refresh_settled-visible-none :
      (market : MarketData) (now : ℤ) (s : Session)
      → s.mounted ≡ true
      → 0 < s.refreshes
      → s.preferences.selected ≡ none
      → let t = step (refresh_settled (fulfilled market) now) s in
        (t.load_state ≡ LoadState.ready) × (t.observations ≡ market.observations) × (visible t ≡ [])
  unfolding step visible
  refresh_settled-visible-none market now s up started unknown = (
    ground arith,
    ground arith,
    filter_visible-none (step (refresh_settled (fulfilled market) now) s).observations
        (step (refresh_settled (fulfilled market) now) s).preferences (ground arith),
  )
