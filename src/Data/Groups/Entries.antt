-- ===== src/Data/Groups/Entries.antt =====
-- `groupByInstrument` itself, and what a grouping is good for: every row is found in its group.
use push_and_pray.Prelude.{
  ◌≡◌, refl, sym, inl, inr, true, List, [], ◌∷◌, Bool-cases, All, Any, Any-imp, Any-of_All,
}
use push_and_pray.Prelude.Text.{Text, text_eq, text_eq_iff}
use push_and_pray.Js.Outcome.{returns, throws}
use push_and_pray.Js.Object.{Object, is_inherited, entries}
use push_and_pray.Types.{Observation}
use push_and_pray.Data.Groups.{group_by_instrument}
use push_and_pray.Data.Groups.Laws.{
  rows_with, IsGrouping, HasPlainKey, group_own, group_into-returns, group_into-throws,
  entries-IsGrouping,
}

module _ {A : Type 0} where
  -- Something that stands in the list, and of which the predicate holds.
  pub Any-pick : (P : A → Type 0) (xs : List A) → Any P xs → (x : A) × Any (λ y. y ≡ x) xs × P x
  Any-pick P [] h = elim h [ ]
  Any-pick P (x ∷ xs) (inl h) = (x, inl refl, h)
  Any-pick P (x ∷ xs) (inr h) = let (y, at, p) = Any-pick P xs h in (y, inr at, p)

  module _ (key : A → Text) where
    Any-rows_with :
        (Q : A → Type 0) (k : Text) (xs : List A)
        → Any (λ y. Q y × (key y ≡ k)) xs
        → Any Q (rows_with key k xs)
    Any-rows_with Q k [] h = h
    Any-rows_with Q k (x ∷ xs) (inl h) = rw ((text_eq_iff (key x) k).1 h.1) (inl h.0)
    Any-rows_with Q k (x ∷ xs) (inr h) = elim (Bool-cases (text_eq (key x) k)) [
      | inl e ↦ rw e (inr (Any-rows_with Q k xs h))
      | inr e ↦ rw e (Any-rows_with Q k xs h)
    ]

    -- What stands in the list stands in one of the groups.
    pub IsGrouping-Any :
        (Q : A → Type 0) (xs : List A) (groups : List (Text × List A))
        → IsGrouping key xs groups
        → Any Q xs
        → Any (λ g. Any Q g.1) groups
    IsGrouping-Any Q xs groups g any =
        let (x, at, found, q) =
          pick
            (Any-pick _ xs (Any-of_All (λ x. Any (λ g. g.0 ≡ key x) groups) Q xs g.covers any)) in
        Any-imp _ (λ g. Any Q g.1) groups
          (λ g' both.
            rw both.0.0
              (Any-rows_with Q g'.0 xs (Any-imp _ _ xs (λ y same. rw same (q, sym both.1)) at)))
          (Any-of_All _ (λ g. g.0 ≡ key x) groups g.rows found)
      where
        pick :
            (x : A) × Any (λ y. y ≡ x) xs × (Any (λ g. g.0 ≡ key x) groups × Q x)
            → (x : A) × Any (λ y. y ≡ x) xs × Any (λ g. g.0 ≡ key x) groups × Q x
        pick (x, at, both) = (x, at, both.0, both.1)

abbrev pub code_of : Observation → Text
code_of item = item.instrument_code

-- Where no instrument code is a name that `{}` inherits, `groupByInstrument` returns, and
-- `Object.entries` of the result has each code that occurs once, with all observations of that code
-- in their order.
pub group_by_instrument-IsGrouping :
    (items : List Observation)
    → All (HasPlainKey (λ item. item.instrument_code)) items
    → (grouped : Object (List Observation)) × (group_by_instrument items ≡ returns grouped)
      × IsGrouping (λ item. item.instrument_code) items (entries grouped)
unfolding group_by_instrument
group_by_instrument-IsGrouping items h = (
  group_own code_of [] items,
  group_into-returns code_of items h,
  entries-IsGrouping code_of items,
)

-- One instrument code that is a name which `{}` inherits, such as "constructor", makes
-- `groupByInstrument` throw.
pub group_by_instrument-throws :
    (items : List Observation)
    → Any (λ item. is_inherited item.instrument_code ≡ true) items
    → group_by_instrument items ≡ throws
unfolding group_by_instrument
group_by_instrument-throws items h = group_into-throws code_of items h
