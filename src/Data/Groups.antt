-- ===== src/Data/Groups.antt =====
-- `groupByInstrument`, and the same loop over units in `createChartGroups`.
pub mod Laws
pub mod Entries
use push_and_pray.Prelude.{List, [], ◌∷◌}
use push_and_pray.Prelude.Text.{Text}
use push_and_pray.Js.Outcome.{Outcome, returns, throws, ◌>>=◌}
use push_and_pray.Js.Object.{Object, push}
use push_and_pray.Types.{Observation}

module _ {ℓ} {A : Type ℓ} (key : A → Text) where
  -- The `reduce`: every entry is pushed under its key.
  unfoldable pub group_into : Object (List A) → List A → Outcome (Object (List A))
  unfolding push
  group_into groups [] = returns groups
  group_into groups (x ∷ xs) = do groups' ← push (key x) x groups; group_into groups' xs

unfoldable pub group_by_instrument : List Observation → Outcome (Object (List Observation))
group_by_instrument items = group_into (λ item. item.instrument_code) [] items
