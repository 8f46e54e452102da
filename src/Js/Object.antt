-- ===== src/Js/Object.antt =====
-- Plain objects as dictionaries: `(groups[key] ??= []).push(row)`, `groups[key]`, and the order of
-- `Object.entries`.
pub mod Laws
use push_and_pray.Prelude.{
  ℕ, suc, ◌+◌, ◌-◌, ◌*◌, Bool, true, false, not, ◌&&◌, ◌||◌, Option, none, some, List, [], ◌∷◌,
  ◌++◌, ltb, leb, ◌==◌, if◌then◌else◌, select,
}
use push_and_pray.Prelude.Int.{ℤ, sub_ℕ}
use push_and_pray.Prelude.Text.{Text, codes, text_eq}
use push_and_pray.Js.Outcome.{Outcome, returns, throws}
use push_and_pray.Js.Sort.{sort}

-- The own properties, in the order of creation.
abbrev pub Object {ℓ} : Type ℓ → Type ℓ
Object V = List (Text × V)

-- The properties that `{}` inherits from `Object.prototype`.
abbrev pub inherited_names : List Text
inherited_names =
    codes "constructor"
    ∷ codes "__proto__"
    ∷ codes "toString"
    ∷ codes "toLocaleString"
    ∷ codes "valueOf"
    ∷ codes "hasOwnProperty"
    ∷ codes "isPrototypeOf"
    ∷ codes "propertyIsEnumerable"
    ∷ codes "__defineGetter__"
    ∷ codes "__defineSetter__"
    ∷ codes "__lookupGetter__"
    ∷ codes "__lookupSetter__"
    ∷ []

abbrev is_one_of : List Text → Text → Bool
is_one_of [] k = false
is_one_of (n ∷ ns) k = text_eq n k || is_one_of ns k

unfoldable pub is_inherited : Text → Bool
unfolding text_eq
is_inherited k = is_one_of inherited_names k

-- The value of `object[key]`.
pub data Property {ℓ} (V : Type ℓ) : Type ℓ where
  own : V → Property V
  inherited : Property V
  missing : Property V

module _ {ℓ} {V : Type ℓ} where
  unfoldable pub find : Text → Object V → Option V
  find k [] = none
  find k ((j, v) ∷ o) = if text_eq j k then some v else find k o

  unfoldable pub get : Text → Object V → Property V
  unfolding find
  get k o = elim (find k o) [
    | some v ↦ own v
    | none ↦ if is_inherited k then inherited else missing
  ]

  unfoldable pub push_own : Text → V → Object (List V) → Object (List V)
  push_own k v [] = (k, v ∷ []) ∷ []
  push_own k v ((j, vs) ∷ o) =
      if text_eq j k then (j, vs ++ (v ∷ [])) ∷ o else (j, vs) ∷ push_own k v o

  -- An inherited value is neither nullish nor an array, so that its `push` is a TypeError.
  unfoldable pub push : Text → V → Object (List V) → Outcome (Object (List V))
  push k v o = if is_inherited k then throws else returns (push_own k v o)

-- A digit's value.
abbrev digit : ℕ → Option ℕ
digit c = if leb b'0' c && leb c b'9' then some (c - b'0') else none

decimal : ℕ → Text → Option ℕ
decimal acc [] = some acc
decimal acc (c ∷ s) = elim (digit c) [ none ↦ none | some d ↦ decimal (acc * 10 + d) s ]

-- The number that a key spells canonically, below 2 ^ 32 - 1.
unfoldable pub array_index : Text → Option ℕ
unfolding decimal
array_index [] = none
array_index (c ∷ []) = digit c
array_index (c ∷ d ∷ s) = if c == b'0' then none else elim (decimal 0 (c ∷ d ∷ s)) [
  | none ↦ none
  | some n ↦ if ltb n 4294967295 then some n else none
]

abbrev pub has_index {ℓ} : {V : Type ℓ} → Text × V → Bool
has_index (k, v) = elim (array_index k) [ none ↦ false | some _ ↦ true ]

abbrev index_order {ℓ} : {V : Type ℓ} → Text × V → Text × V → Option ℤ
index_order (j, v) (k, w) = elim (array_index j) [
  | none ↦ none
  | some a ↦ elim (array_index k) [ none ↦ none | some b ↦ some (sub_ℕ a b) ]
]

-- `Object.entries`: the array indices in ascending order, then the other keys as they came.
unfoldable pub entries {ℓ} : {V : Type ℓ} → Object V → List (Text × V)
unfolding array_index
entries o = sort index_order (select has_index o) ++ select (λ p. not (has_index p)) o
