-- ===== src/App/Page/Offers.antt =====
-- What the user can cause on the page.
use push_and_pray.Prelude.{ℕ, suc, ◌≡◌, refl, ap, true, false, List, [], ◌∷◌, ◌++◌, append-nil, map}
use push_and_pray.Prelude.Text.{Text, text_eq}
use push_and_pray.Types.{
  Instrument, Preferences, days_1, days_7, days_30, days_90, days_180, days_365, all, Metric, price,
  change, separate, compare, line, area, points, Scale, linear, log, off, over_3, over_7, LoadState,
  loading, ready, error,
}
use push_and_pray.Markup.{nodes}
use push_and_pray.Markup.Offers.{offers, offers_all}
use push_and_pray.App.Session.{
  Session, Event, updated, try_again_clicked, Update, set_range, set_metric, set_layout, set_style,
  set_scale, set_moving_average, set_smooth,
}
use push_and_pray.App.View.{toggle_instrument}
use push_and_pray.App.View.Instruments.{instrument_box, instrument_boxes, select_all, clear}
use push_and_pray.App.View.Controls.{range_options}
use push_and_pray.App.Page.Snapshot.{error_banner}
use push_and_pray.App.Page.Filters.{box_node, filters}

-- The updates that the controls beside the charts offer; a chart of changes has no choice of scale.
unfoldable pub scales : Metric → List Scale
scales price = linear ∷ log ∷ []
scales change = []

unfoldable pub control_updates : Preferences → List Update
unfolding scales
control_updates p =
    map set_range (days_1 ∷ days_7 ∷ days_30 ∷ days_90 ∷ days_180 ∷ days_365 ∷ all ∷ [])
    ++ (map set_metric (price ∷ change ∷ [])
        ++ (map set_layout (compare ∷ separate ∷ [])
            ++ (map set_style (line ∷ area ∷ points ∷ [])
                ++ (map set_scale (scales p.metric)
                    ++ (map set_moving_average (off ∷ over_3 ∷ over_7 ∷ [])
                        ++ map set_smooth (true ∷ false ∷ []))))))

unfoldable pub retry_events : LoadState → List Event
retry_events error = try_again_clicked ∷ []
retry_events _ = []

module _ (C : Type 0) where
  offers-boxes :
      (s : Session) (index : ℕ) (is : List Instrument)
      → offers_all (nodes (map (box_node {C = C}) (instrument_boxes s index is)))
        ≡ map (λ i. updated (toggle_instrument s i.code)) is
  unfolding instrument_boxes instrument_box box_node offers
  offers-boxes s index [] = refl
  offers-boxes s index (i ∷ is) =
      ap (updated (toggle_instrument s i.code) ∷◌) (offers-boxes s (suc index) is)

  -- What the controls beside the charts offer.
  abbrev pub OffersControls : Session → Type 0
  OffersControls s =
      offers (filters {C = C} s)
      ≡ updated (select_all s)
        ∷ updated clear
        ∷ (map (λ i. updated (toggle_instrument s i.code)) s.instruments
            ++ map updated (control_updates s.preferences))

  abbrev with_metric : Session → Metric → Session
  with_metric s m = record s { preferences = record s.preferences { metric = m } }

  pub offers-controls : (s : Session) → OffersControls s
  unfolding filters offers control_updates range_options text_eq
  offers-controls s = elim s.preferences.metric as (λ m. OffersControls (with_metric s m)) [
    | price ↦ simp (offers-boxes (with_metric s price) 0 s.instruments, append-nil)
    | change ↦ simp (offers-boxes (with_metric s change) 0 s.instruments, append-nil)
  ]

  pub offers-error_banner :
      (state : LoadState) (message : Text)
      → offers_all (nodes (error_banner {C = C} state message)) ≡ retry_events state
  unfolding error_banner offers retry_events
  offers-error_banner error message = refl
  offers-error_banner loading message = refl
  offers-error_banner ready message = refl
