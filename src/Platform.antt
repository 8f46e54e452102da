-- ===== src/Platform.antt =====
-- What the browser provides and the client does not implement: `Date.parse` and the arithmetic,
-- reading and printing of floating-point numbers, each as an interface.
pub mod Samples
use push_and_pray.Prelude.{ℕ, Bool}
use push_and_pray.Prelude.Int.{ℤ}
use push_and_pray.Prelude.Text.{Text}
use push_and_pray.Js.Eq.{Instant}

-- `Date.parse`, where an instant is a whole number of milliseconds, and `Intl.DateTimeFormat` in the
-- client's two settings.
pub record Dates : Type 0 where
  pub parse_date : Text → Instant
  pub show_date_time : ℤ → Text
  -- The day and month, with the hour if asked.
  pub show_short_date : Bool → ℤ → Text

-- The operations on numbers that the client applies to prices and coordinates.
pub record Number (W : Type 0) : Type 0 where
  -- A whole number that the source writes as a literal.
  pub literal : ℕ → W
  -- 0.001
  pub thousandth : W
  pub add : W → W → W
  pub sub : W → W → W
  pub mul : W → W → W
  pub div : W → W → W
  -- `a >= b`
  pub at_least : W → W → Bool
  -- `Math.max(a, b)` and `Math.min(a, b)`
  pub larger : W → W → W
  pub smaller : W → W → W
  -- `Number(text)`
  pub read : Text → W
  -- `x.toFixed(digits)`
  pub to_fixed : ℕ → W → Text
  -- `new Intl.NumberFormat("uk-UA", ...).format(x)`, with two or three digits behind the point
  pub format_number : W → Text
