-- ===== src/App/View/Instruments.antt =====
-- The list of instruments with its boxes, and the buttons "Select all" and "Clear".
use push_and_pray.Prelude.{
  ℕ, suc, ◌≡◌, refl, ap, ◌∙◌, Bool, true, false, not, Option, List, [], ◌∷◌, map, arith,
  if◌then◌else◌, All, All-imp,
}
use push_and_pray.Prelude.Text.{Text, text_eq, text_eq_refl}
use push_and_pray.Js.Eq.{text_key}
use push_and_pray.Js.KeyMap.{has}
use push_and_pray.Types.{Instrument}
use push_and_pray.Format.{unit_short}
use push_and_pray.Data.Charts.{series_color}
use push_and_pray.App.Session.{
  Session, Update, set_selected, update_preference, updated, step, save_effect,
}
use push_and_pray.App.View.{selected_codes, toggled, toggle_instrument}
use push_and_pray.App.View.Selection.{has-toggled}

pub record InstrumentBox : Type 0 where
  pub color : Option Text
  pub is_checked : Bool
  pub on_change : Update
  pub name : Text
  pub unit : Text

unfoldable pub instrument_box : Session → ℕ → Instrument → InstrumentBox
unfolding series_color has unit_short toggle_instrument
instrument_box s index instrument = record {
  color = series_color instrument.code index;
  is_checked = has (selected_codes s.preferences) instrument.code;
  on_change = toggle_instrument s instrument.code;
  name = instrument.name;
  unit = unit_short instrument.unit;
}

unfoldable pub instrument_boxes : Session → ℕ → List Instrument → List InstrumentBox
unfolding instrument_box
instrument_boxes s index [] = []
instrument_boxes s index (i ∷ is) = instrument_box s index i ∷ instrument_boxes s (suc index) is

unfoldable pub instrument_list : Session → List InstrumentBox
unfolding instrument_boxes
instrument_list s = instrument_boxes s 0 s.instruments

-- The buttons "Select all" and "Clear".
unfoldable pub select_all : Session → Update
select_all s = set_selected (map (λ item. item.code) s.instruments)

unfoldable pub clear : Update
clear = set_selected []

-- Which boxes are checked.
abbrev pub checks : List InstrumentBox → List Bool
checks boxes = map (λ b. b.is_checked) boxes

-- The page after a use of the list.
abbrev pub after : Update → Session → List InstrumentBox
after u s = instrument_list (step (updated u) s)

checks-instrument_boxes :
    (s : Session) (index : ℕ) (is : List Instrument)
    → checks (instrument_boxes s index is) ≡ map (λ i. has (selected_codes s.preferences) i.code) is
unfolding instrument_boxes instrument_box
checks-instrument_boxes s index [] = refl
checks-instrument_boxes s index (i ∷ is) =
    ap (has (selected_codes s.preferences) i.code ∷◌) (checks-instrument_boxes s (suc index) is)

step-set_selected :
    (codes : List Text) (s : Session)
    → s.mounted ≡ true
    → (selected_codes (step (updated (set_selected codes)) s).preferences ≡ codes)
      × ((step (updated (set_selected codes)) s).instruments ≡ s.instruments)
unfolding step save_effect update_preference
step-set_selected codes s up = ground arith

checks-after :
    (codes : List Text) (s : Session)
    → s.mounted ≡ true
    → checks (after (set_selected codes) s) ≡ map (λ i. has codes i.code) s.instruments
unfolding instrument_list
checks-after codes s up =
    let (chosen, same) = step-set_selected codes s up in
    checks-instrument_boxes (step (updated (set_selected codes)) s) 0 _ ∙ (rw (chosen, same))

map-congr :
    (f g : Instrument → Bool) (is : List Instrument) → All (λ i. f i ≡ g i) is → map f is ≡ map g is
map-congr f g [] h = refl
map-congr f g (i ∷ is) h = cc (h.0, map-congr f g is h.1)

all_of : {P : Instrument → Type 0} (is : List Instrument) → ((i : Instrument) → P i) → All P is
all_of [] h = tt
all_of (i ∷ is) h = (h i, all_of is h)

-- The state of a box after the box of `code` was used.
abbrev pub turned : Session → Text → Instrument → Bool
turned s code i =
    if text_eq code i.code
    then not (has (selected_codes s.preferences) code)
    else has (selected_codes s.preferences) i.code

has-codes : (is : List Instrument) → All (λ i. has (map (λ item. item.code) is) i.code ≡ true) is
unfolding has
has-codes [] = tt
has-codes (i ∷ is) =
    (rw (text_eq_refl i.code), All-imp _ _ is (λ j found. ground (arith, found)) (has-codes is))

-- The list of a mounted component as the page shows it after each of its controls: the box of an
-- instrument turns over and the boxes of other instruments stay, "Select all" checks every box,
-- and "Clear" checks none.
pub checks-instrument_list :
    (s : Session) (code : Text)
    → s.mounted ≡ true
    → (checks (after (toggle_instrument s code) s) ≡ map (turned s code) s.instruments)
      × (checks (after (select_all s) s) ≡ map (λ i. true) s.instruments)
      × (checks (after clear s) ≡ map (λ i. false) s.instruments)
unfolding toggle_instrument select_all clear
checks-instrument_list s code up = (
  checks-after (toggled (selected_codes s.preferences) code) s up
      ∙ map-congr _ _ s.instruments
          (all_of s.instruments (λ i. has-toggled (selected_codes s.preferences) code i.code)),
  checks-after (map (λ item. item.code) s.instruments) s up
      ∙ map-congr _ _ s.instruments (has-codes s.instruments),
  checks-after [] s up
      ∙ map-congr _ _ s.instruments (all_of s.instruments (λ i. unfold has in refl)),
)
