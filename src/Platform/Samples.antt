-- ===== src/Platform/Samples.antt =====
-- Concrete platforms: dates written in decimal milliseconds, and whole numbers for prices.
use push_and_pray.Prelude.{
  ℕ, ◌+◌, ◌-◌, ◌*◌, ◌/◌, ◌&&◌, Option, none, some, List, [], ◌∷◌, if◌then◌else◌, leb, String,
}
use push_and_pray.Prelude.Int.{ℤ, pos, negsuc}
use push_and_pray.Prelude.Text.{Text, codes}
use push_and_pray.Js.Eq.{Instant}
use push_and_pray.Types.{Observation, Category, Fields, Instrument}
use push_and_pray.Platform.{Dates, Number}

abbrev digits_value : ℕ → Text → Option ℕ
digits_value acc [] = some acc
digits_value acc (c ∷ s) =
    let rest = digits_value (acc * 10 + (c - b'0')) s in
    if leb b'0' c && leb c b'9' then rest else none

abbrev milliseconds_of : Text → Instant
milliseconds_of [] = none
milliseconds_of (c ∷ s) = elim (digits_value 0 (c ∷ s)) [ none ↦ none | some n ↦ some (pos n) ]

abbrev show_whole : ℤ → Text
show_whole (pos n) = n ∷ []
show_whole (negsuc n) = b'-' ∷ n ∷ []

instance abbrev pub decimal_dates : Dates
decimal_dates = record {
  parse_date = milliseconds_of;
  show_date_time = show_whole;
  show_short_date = λ with_hour t. show_whole t;
}

abbrev whole_or_zero : Text → ℕ
whole_or_zero s = elim (digits_value 0 s) [ none ↦ 0 | some n ↦ n ]

instance abbrev pub whole_numbers : Number ℕ
whole_numbers = record {
  literal = λ n. n;
  thousandth = 1;
  add = λ a b. a + b;
  sub = λ a b. a - b;
  mul = λ a b. a * b;
  div = λ a b. a / b;
  at_least = λ a b. leb b a;
  larger = λ a b. if leb a b then b else a;
  smaller = λ a b. if leb a b then a else b;
  read = whole_or_zero;
  to_fixed = λ digits x. x ∷ [];
  format_number = λ x. x ∷ [];
}

-- An observation of a code, with a price, the time of its event and the time it was scheduled for.
abbrev pub observation : String → String → String → String → Observation
observation code price observed scheduled = record {
  id = codes scheduled;
  instrument_code = codes code;
  instrument_name = codes code;
  category = Category.crude_oil;
  price = codes price;
  currency = codes "USD";
  unit = codes "USD per barrel";
  source = codes "oilpriceapi";
  source_series_id = codes code;
  source_period = codes "2026-01-01";
  source_observed_at = codes observed;
  scheduled_for = codes scheduled;
  fetched_at = codes scheduled;
  source_url = codes "https://example.org";
  raw_data = Fields.end;
  created_at = codes scheduled;
}

-- The second row corrects the first; the last one was observed before both.
abbrev pub rows : List Observation
rows =
    observation "WTI_USD_BBL" "70" "200" "210"
    ∷ observation "WTI_USD_BBL" "71" "200" "220"
    ∷ observation "BRENT_USD_BBL" "75" "150" "230"
    ∷ observation "WTI_USD_BBL" "69" "100" "240"
    ∷ []

abbrev pub instruments : List Instrument
instruments =
    record {
      code = codes "WTI_USD_BBL";
      name = codes "WTI";
      category = Category.crude_oil;
      currency = codes "USD";
      unit = codes "USD per barrel";
    }
    ∷ []
