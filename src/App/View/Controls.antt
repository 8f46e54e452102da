-- ===== src/App/View/Controls.antt =====
-- The segmented controls: one button for each option, of which the one with the current value is
-- active.
use push_and_pray.Prelude.{◌≡◌, refl, Bool, false, List, [], ◌∷◌, map, select}
use push_and_pray.Prelude.Text.{Text, codes, text_eq}
use push_and_pray.Types.{
  RangeValue, days_1, days_7, days_30, days_90, days_180, days_365, all, Preferences, Metric, price,
  change, Layout, separate, compare, ChartStyle, line, area, points, Scale, linear, log,
  MovingAverage, off, over_3, over_7,
}
use push_and_pray.Types.Texts.{
  range_text, metric_text, layout_text, style_text, scale_text, average_text,
}

pub record Choice (T : Type 0) : Type 0 where
  pub value : T
  pub label : Text

pub record Button (T : Type 0) : Type 0 where
  pub label : Text
  pub is_active : Bool
  pub is_disabled : Bool
  -- What `onChange` is called with.
  pub on_click : T

-- `Segmented`, over the comparison of the option's string values.
unfoldable pub segmented :
    {T : Type 0} → (T → T → Bool) → T → Bool → List (Choice T) → List (Button T)
segmented same value disabled [] = []
segmented same value disabled (o ∷ os) =
    record {
      label = o.label;
      is_active = same o.value value;
      is_disabled = disabled;
      on_click = o.value;
    }
    ∷ segmented same value disabled os

abbrev choice : {T : Type 0} → T → Text → Choice T
choice v l = record { value = v; label = l }

unfoldable pub range_options : List (Choice RangeValue)
range_options =
    choice days_1 (codes "24H")
    ∷ choice days_7 (codes "7D")
    ∷ choice days_30 (codes "30D")
    ∷ choice days_90 (codes "90D")
    ∷ choice days_180 (codes "6M")
    ∷ choice days_365 (codes "1Y")
    ∷ choice all (codes "ALL")
    ∷ []

abbrev same_range : RangeValue → RangeValue → Bool
same_range a b = text_eq (range_text a) (range_text b)

-- The control "Time range".
unfoldable pub range_buttons : Preferences → List (Button RangeValue)
unfolding segmented range_options range_text
range_buttons p = segmented same_range p.range false range_options

abbrev pub active : {T : Type 0} → List (Button T) → List T
active buttons = map (λ b. b.on_click) (select (λ b. b.is_active) buttons)

unfoldable pub metric_buttons : Preferences → List (Button Metric)
unfolding segmented metric_text
metric_buttons p =
    segmented (λ a b. text_eq (metric_text a) (metric_text b)) p.metric false
      (choice price (codes "Price") ∷ choice change (codes "Δ %") ∷ [])

unfoldable pub layout_buttons : Preferences → List (Button Layout)
unfolding segmented layout_text
layout_buttons p =
    segmented (λ a b. text_eq (layout_text a) (layout_text b)) p.layout false
      (choice compare (codes "Compare") ∷ choice separate (codes "Panels") ∷ [])

unfoldable pub style_buttons : Preferences → List (Button ChartStyle)
unfolding segmented style_text
style_buttons p =
    segmented (λ a b. text_eq (style_text a) (style_text b)) p.style false
      (choice line (codes "Line")
        ∷ choice area (codes "Area")
        ∷ choice points (codes "Points")
        ∷ [])

-- A chart of changes has no choice of scale.
unfoldable pub scale_buttons : Preferences → List (Button Scale)
unfolding segmented scale_text metric_text
scale_buttons p =
    segmented (λ a b. text_eq (scale_text a) (scale_text b)) p.scale
      (text_eq (metric_text p.metric) (codes "change"))
      (choice linear (codes "Linear") ∷ choice log (codes "Log") ∷ [])

unfoldable pub average_buttons : Preferences → List (Button MovingAverage)
unfolding segmented average_text
average_buttons p =
    segmented (λ a b. text_eq (average_text a) (average_text b)) p.moving_average false
      (choice off (codes "Off") ∷ choice over_3 (codes "MA 3") ∷ choice over_7 (codes "MA 7") ∷ [])

range_active : (r : RangeValue) → active (segmented same_range r false range_options) ≡ r ∷ []
unfolding segmented range_options range_text text_eq
range_active days_1 = refl
range_active days_7 = refl
range_active days_30 = refl
range_active days_90 = refl
range_active days_180 = refl
range_active days_365 = refl
range_active all = refl

-- Whatever the preferences are, each of the six segmented controls has one active button, which is
-- that of the preference.
pub buttons-active :
    (p : Preferences)
    → (active (range_buttons p) ≡ p.range ∷ [])
      × (active (metric_buttons p) ≡ p.metric ∷ [])
      × (active (layout_buttons p) ≡ p.layout ∷ [])
      × (active (style_buttons p) ≡ p.style ∷ [])
      × (active (scale_buttons p) ≡ p.scale ∷ [])
      × (active (average_buttons p) ≡ p.moving_average ∷ [])
unfolding range_buttons metric_buttons layout_buttons style_buttons scale_buttons average_buttons
    text_eq
buttons-active p = (
  range_active p.range,
  elim p.metric as (λ x. active (metric_buttons (record p { metric = x })) ≡ x ∷ []) [
    | price ↦ refl
    | change ↦ refl
  ],
  elim p.layout as (λ x. active (layout_buttons (record p { layout = x })) ≡ x ∷ []) [
    | separate ↦ refl
    | compare ↦ refl
  ],
  elim p.style as (λ x. active (style_buttons (record p { style = x })) ≡ x ∷ []) [
    | line ↦ refl
    | area ↦ refl
    | points ↦ refl
  ],
  elim p.scale as (λ x. active (scale_buttons (record p { scale = x })) ≡ x ∷ []) [
    | linear ↦ refl
    | log ↦ refl
  ],
  elim p.moving_average
      as (λ x. active (average_buttons (record p { moving_average = x })) ≡ x ∷ []) [
        | off ↦ refl
        | over_3 ↦ refl
        | over_7 ↦ refl
      ],
)
