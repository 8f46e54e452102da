-- ===== src/Data/Charts/Once.antt =====
-- No code has two series.
use push_and_pray.Prelude.{
  ℕ, suc, ◌≡◌, refl, sym, ap, ◌∙◌, ◌≢◌, List, [], ◌∷◌, ◌++◌, map, append-nil, All, Ordered, All-imp,
  All-zip, All-append, Ordered-append, subst,
}
use push_and_pray.Prelude.Text.{Text}
use push_and_pray.Js.Object.Laws.{Distinct}
use push_and_pray.Types.{Observation, Instrument, Metric}
use push_and_pray.Platform.{Dates, Number}
use push_and_pray.Data.Groups.Laws.{rows_with}
use push_and_pray.Data.Groups.Entries.{code_of}
use push_and_pray.Data.Charts.{
  Entry, unit_or, make_series, series_from, separate_charts, unit_chart,
}
use push_and_pray.Data.Charts.Contract.{unknown_unit, IsEntryOf, series_codes, codes_of}

abbrev AreApart : List Text → Type 0
AreApart = Ordered (λ a b. a ≢ b)

abbrev keys : List Entry → List Text
keys es = map (λ e. e.0) es

All-keys : (P : Text → Type 0) (es : List Entry) → All (λ e. P e.0) es → All P (keys es)
All-keys P [] h = tt
All-keys P (e ∷ es) h = (h.0, All-keys P es h.1)

keys-AreApart : (es : List Entry) → Distinct es → AreApart (keys es)
keys-AreApart [] h = tt
keys-AreApart (e ∷ es) h = (All-keys (λ k. e.0 ≢ k) es h.0, keys-AreApart es h.1)

-- All the codes under the units.
abbrev all_keys : List (Text × List Entry) → List Text
all_keys [] = []
all_keys (g ∷ gs) = keys g.1 ++ all_keys gs

module _ (items : List Observation) where
  -- The entries under one unit.
  abbrev pub IsUnit : Text × List Entry → Type 0
  IsUnit g = Distinct g.1 × All (λ e. IsEntryOf items e × (unit_or unknown_unit e ≡ g.0)) g.1

  unit-of_code :
      (e f : Entry)
      → IsEntryOf items e
      → IsEntryOf items f
      → e.0 ≡ f.0
      → unit_or unknown_unit e ≡ unit_or unknown_unit f
  unit-of_code e f x y same =
      let rows : e.1 ≡ f.1 = x.rows ∙ ap (λ k. rows_with code_of k items) same ∙ sym y.rows in
      ap (λ k. unit_or unknown_unit (k, e.1)) same ∙ ap (λ r. unit_or unknown_unit (f.0, r)) rows

  apart_of_unit :
      (g h : Text × List Entry)
      → g.0 ≢ h.0
      → IsUnit g
      → IsUnit h
      → All (λ e. All (λ k. e.0 ≢ k) (keys h.1)) g.1
  apart_of_unit g h ne ug uh =
      All-imp _ _ g.1
        (λ e here.
          All-keys (λ k. e.0 ≢ k) h.1
            (All-imp _ _ h.1
              (λ f there same. ne (sym here.1 ∙ unit-of_code e f here.0 there.0 same ∙ there.1))
              uh.1))
        ug.1

  apart_of_units :
      (g : Text × List Entry) (gs : List (Text × List Entry))
      → All (λ h. g.0 ≢ h.0) gs
      → IsUnit g
      → All IsUnit gs
      → All (λ e. All (λ k. e.0 ≢ k) (all_keys gs)) g.1
  apart_of_units g [] ne ug us = All-imp _ _ g.1 (λ e _. tt) ug.1
  apart_of_units g (h ∷ hs) ne ug us =
      All-zip _ _ _ g.1 (λ e a b. All-append (λ k. e.0 ≢ k) (keys h.1) (all_keys hs) a b)
        (apart_of_unit g h ne.0 ug us.0) (apart_of_units g hs ne.1 ug us.1)

  all_keys-AreApart :
      (gs : List (Text × List Entry)) → Distinct gs → All IsUnit gs → AreApart (all_keys gs)
  all_keys-AreApart [] d h = tt
  all_keys-AreApart (g ∷ gs) d h =
      Ordered-append (λ a b. a ≢ b) (keys g.1) (all_keys gs) (keys-AreApart g.1 h.0.0)
        (all_keys-AreApart gs d.1 h.1)
        (All-keys (λ k. All (λ j. k ≢ j) (all_keys gs)) g.1 (apart_of_units g gs d.0 h.0 h.1))

module _ (W : Type 0) ⦃n : Number W⦄ ⦃d : Dates⦄ (instruments : List Instrument)
    (metric : Metric) where
  series_codes-series_from :
      (index : ℕ) (es : List Entry)
      → series_codes (series_from {W = W} instruments metric index es) ≡ keys es
  unfolding series_from make_series
  series_codes-series_from index [] = refl
  series_codes-series_from index (e ∷ es) = ap (e.0 ∷◌) (series_codes-series_from (suc index) es)

  codes_of-separate_charts :
      (index : ℕ) (es : List Entry)
      → codes_of (separate_charts {W = W} instruments metric index es) ≡ keys es
  unfolding separate_charts make_series
  codes_of-separate_charts index [] = refl
  codes_of-separate_charts index (e ∷ es) = ap (e.0 ∷◌) (codes_of-separate_charts (suc index) es)

  codes_of-unit_charts :
      (gs : List (Text × List Entry))
      → codes_of (map (unit_chart {W = W} instruments metric) gs) ≡ all_keys gs
  unfolding unit_chart
  codes_of-unit_charts [] = refl
  codes_of-unit_charts (g ∷ gs) =
      rw (series_codes-series_from 0 g.1) (ap (keys g.1 ++◌) (codes_of-unit_charts gs))

  pub series_from_once :
      (es : List Entry)
      → Distinct es
      → AreApart (series_codes (series_from {W = W} instruments metric 0 es) ++ [])
  series_from_once es apart =
      subst AreApart (sym (append-nil _ ∙ series_codes-series_from 0 es)) (keys-AreApart es apart)

  pub separate_charts_once :
      (es : List Entry)
      → Distinct es
      → AreApart (codes_of (separate_charts {W = W} instruments metric 0 es))
  separate_charts_once es apart =
      subst AreApart (sym (codes_of-separate_charts 0 es)) (keys-AreApart es apart)

  pub unit_charts_once :
      (items : List Observation) (gs : List (Text × List Entry))
      → Distinct gs
      → All (IsUnit items) gs
      → AreApart (codes_of (map (unit_chart {W = W} instruments metric) gs))
  unit_charts_once items gs apart h =
      subst AreApart (sym (codes_of-unit_charts gs)) (all_keys-AreApart items gs apart h)
