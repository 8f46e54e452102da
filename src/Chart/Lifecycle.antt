-- ===== src/Chart/Lifecycle.antt =====
-- The effect that owns the chart: `echarts.init`, `setOption`, the observer of the element's size,
-- and the cleanup before the next option and at the unmount.
use push_and_pray.Prelude.{
  ℕ, suc, ◌≡◌, refl, Bool, true, Option, none, some, List, [], ◌∷◌, arith, if◌then◌else◌, ◌==◌,
  select, not,
}

-- `ref.current` is null until the element is there. The resources are known by the number of the run
-- that made them; `owned` is what the cleanup of the last run holds.
pub record Panel (O : Type 0) : Type 0 where
  pub has_element : Bool
  pub runs : ℕ
  pub charts : List (ℕ × O)
  pub observers : List ℕ
  pub owned : Option ℕ

unfoldable pub new_panel : {O : Type 0} → Panel O
new_panel = record { has_element = true; runs = 0; charts = []; observers = []; owned = none }

unfoldable pub disconnect : ℕ → List ℕ → List ℕ
disconnect run observers = select (λ r. not (r == run)) observers

module _ {O : Type 0} where
  unfoldable pub dispose : ℕ → List (ℕ × O) → List (ℕ × O)
  dispose run charts = select (λ c. not (c.0 == run)) charts

  clean_owned : Option ℕ → Panel O → Panel O
  unfolding dispose disconnect
  clean_owned none p = p
  clean_owned (some run) p = record p {
    charts = dispose run p.charts;
    observers = disconnect run p.observers;
    owned = none;
  }

  -- `observer.disconnect(); chart.dispose();`
  unfoldable pub cleanup : Panel O → Panel O
  unfolding clean_owned
  cleanup p = clean_owned p.owned p

  -- The effect's body, with the option that it draws.
  unfoldable pub start : O → Panel O → Panel O
  start option p =
      if p.has_element
      then record p {
        runs = suc p.runs;
        charts = (p.runs, option) ∷ p.charts;
        observers = p.runs ∷ p.observers;
        owned = some p.runs;
      }
      else p

  -- A render with a new option.
  unfoldable pub redraw : Panel O → O → Panel O
  unfolding cleanup start
  redraw p option = start option (cleanup p)

  unfoldable pub redraw_all : Panel O → List O → Panel O
  unfolding redraw
  redraw_all p [] = p
  redraw_all p (o ∷ os) = redraw_all (redraw p o) os

  -- The one chart and observer of a run.
  pub record Owns (run : ℕ) (option : O) (p : Panel O) : Type 0 where
    pub element : p.has_element ≡ true
    pub charts : p.charts ≡ (run, option) ∷ []
    pub observers : p.observers ≡ run ∷ []
    pub owned : p.owned ≡ some run

  redraw-Owns :
      (run : ℕ) (old new : O) (p : Panel O) → Owns run old p → Owns p.runs new (redraw p new)
  unfolding redraw
  redraw-Owns run old new p h = ground arith

  first-Owns :
      (option : O) (p : Panel O)
      → p.has_element ≡ true
      → p.charts ≡ []
      → p.observers ≡ []
      → p.owned ≡ none
      → Owns p.runs option (redraw p option)
  unfolding redraw
  first-Owns option p here no_charts no_observers nothing = ground arith

  pub last_of : O → List O → O
  last_of o [] = o
  last_of o (o' ∷ os) = last_of o' os

  redraw_all-Owns :
      (os : List O) (run : ℕ) (o : O) (p : Panel O)
      → Owns run o p
      → (r : ℕ) × Owns r (last_of o os) (redraw_all p os)
  unfolding redraw_all last_of
  redraw_all-Owns [] run o p h = (run, h)
  redraw_all-Owns (o' ∷ os) run o p h =
      redraw_all-Owns os p.runs o' (redraw p o') (redraw-Owns run o o' p h)

  -- On a panel whose element is there, however often the option changes, there is one chart,
  -- which draws the last option, and one observer; the cleanup at the unmount leaves none of
  -- either.
  pub redraw_all-one :
      (o : O) (os : List O)
      → let p = redraw_all new_panel (o ∷ os) in
        (r : ℕ) × (p.charts ≡ (r, last_of o os) ∷ [])
        × (p.observers ≡ r ∷ [])
        × ((cleanup p).charts ≡ [])
        × ((cleanup p).observers ≡ [])
  unfolding redraw_all cleanup
  redraw_all-one o os =
      let (r, h) =
        redraw_all-Owns os 0 o (redraw new_panel o)
          (unfold new_panel in first-Owns o new_panel refl refl refl refl) in
      (r, h.charts, h.observers, ground arith, ground arith)
