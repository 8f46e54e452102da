-- ===== src/Js/Number.antt =====
-- `String(n)` of a whole number that is not negative.
pub mod Laws
use push_and_pray.Prelude.{ℕ, zero, suc, ◌+◌, ◌/◌, ◌%◌, List, [], ◌∷◌, ◌++◌, ltb, if◌then◌else◌}
use push_and_pray.Prelude.Text.{Text}

-- The digits that the fuel allows.
pub decimal : ℕ → ℕ → Text
decimal zero n = []
decimal (suc fuel) n =
    let rest = decimal fuel (n / 10) in
    if ltb n 10 then (n + b'0') ∷ [] else rest ++ ((n % 10 + b'0') ∷ [])

-- A number has at most as many digits as its successor says.
unfoldable pub number_text : ℕ → Text
unfolding decimal
number_text n = decimal (suc n) n
