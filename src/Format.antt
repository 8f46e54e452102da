-- ===== src/Format.antt =====
-- services/ui/frontend/src/format.ts. What `Intl` prints is left to the platform.
pub mod UnitShort
use push_and_pray.Prelude.{
  ℕ, ◌-◌, Bool, true, false, ◌&&◌, Option, none, some, ◌++◌, leb, ◌==◌, if◌then◌else◌,
}
use push_and_pray.Prelude.Text.{Text, codes, is_empty, strip_prefix, replace_first}
use push_and_pray.Types.{Observation}
use push_and_pray.Js.Eq.{Instant}
use push_and_pray.Js.Outcome.{Outcome, returns, throws}
use push_and_pray.Platform.{Dates, Number}

-- A missing or an empty observation time gives way to the scheduled one.
event_time_of : Option Text → Text → Text
event_time_of none scheduled_for = scheduled_for
event_time_of (some observed_at) scheduled_for =
    if is_empty observed_at then scheduled_for else observed_at

unfoldable pub event_time : Observation → Text
unfolding event_time_of
event_time item = event_time_of (some item.source_observed_at) item.scheduled_for

-- `number | string`
pub data Amount (W : Type 0) : Type 0 where
  amount : W → Amount W
  written : Text → Amount W

module _ {W : Type 0} ⦃n : Number W⦄ where
  -- `Number(value)`
  to_number : Amount W → W
  to_number (amount x) = x
  to_number (written text) = n.read text

  unfoldable pub format_price : Amount W → Text
  unfolding to_number
  format_price value = n.format_number (to_number value)

  unfoldable pub format_percent : W → Text
  format_percent value =
      (if n.at_least value (n.literal 0) then codes "+" else codes "")
      ++ (n.to_fixed 2 value ++ codes "%")

-- `string | number | Date`
pub data DateValue : Type 0 where
  date_text : Text → DateValue
  date_number : Instant → DateValue

module _ ⦃d : Dates⦄ where
  -- `new Date(value)`
  date_of : DateValue → Instant
  date_of (date_text text) = d.parse_date text
  date_of (date_number instant) = instant

  -- `Intl.DateTimeFormat` throws a RangeError at an invalid date.
  unfoldable pub format_date_time : DateValue → Outcome Text
  unfolding date_of
  format_date_time value = elim (date_of value) [
    | none ↦ throws
    | some t ↦ returns (d.show_date_time t)
  ]

  abbrev is_number : DateValue → Bool
  is_number (date_text text) = false
  is_number (date_number instant) = true

  unfoldable pub format_short_date : DateValue → Outcome Text
  unfolding date_of
  format_short_date value = elim (date_of value) [
    | none ↦ throws
    | some t ↦ returns (d.show_short_date (is_number value) t)
  ]

-- The `i` flag: an ASCII letter stands for both of its cases.
abbrev upper : ℕ → ℕ
upper c = if leb b'a' c && leb c b'z' then c - 32 else c

abbrev same_letter : ℕ → ℕ → Bool
same_letter c d = upper c == upper d

-- `unit.replace(/^USD per /i, "")`
unfoldable pub drop_currency : Text → Text
unfolding strip_prefix
drop_currency unit = elim (strip_prefix same_letter (codes "USD per ") unit) [
  | none ↦ unit
  | some rest ↦ rest
]

unfoldable pub unit_short : Text → Text
unfolding drop_currency replace_first
unit_short unit =
    replace_first (codes "gallon") (codes "gal")
      (replace_first (codes "barrel") (codes "bbl") (drop_currency unit))
