-- ===== src/Js/Value.antt =====
-- A value that the client hands to a library: what `JSON` has, with undefined and functions. `F` are
-- the functions, and `W` the numbers that are computed; a number that the source writes is in hundredths.
use push_and_pray.Prelude.{ℕ, ◌*◌, Bool, List, [], ◌∷◌, String, if◌then◌else◌}
use push_and_pray.Prelude.Text.{Text, codes, text_eq}
use push_and_pray.Js.Eq.{Instant}

mutual
  pub data Value (F W : Type 0) : Type 0 where
    undefined : Value F W
    boolean : Bool → Value F W
    hundredths : ℕ → Value F W
    number : W → Value F W
    instant : Instant → Value F W
    string : Text → Value F W
    function : F → Value F W
    array : Values F W → Value F W
    object : Fields F W → Value F W

  pub data Values (F W : Type 0) : Type 0 where
    nil : Values F W
    cons : Value F W → Values F W → Values F W

  pub data Fields (F W : Type 0) : Type 0 where
    end : Fields F W
    field : Text → Value F W → Fields F W → Fields F W

module _ {F W : Type 0} where
  abbrev pub values : List (Value F W) → Values F W
  values [] = nil
  values (v ∷ vs) = cons v (values vs)

  abbrev pub fields : List (String × Value F W) → Fields F W
  fields [] = end
  fields ((name, v) ∷ fs) = field (codes name) v (fields fs)

  -- `{ name: value, ... }` and `[value, ...]`
  abbrev pub obj : List (String × Value F W) → Value F W
  obj fs = object (fields fs)

  abbrev pub arr : List (Value F W) → Value F W
  arr vs = array (values vs)

  abbrev pub whole : ℕ → Value F W
  whole n = hundredths (n * 100)

  abbrev pub str : String → Value F W
  str s = string (codes s)

  unfoldable pub field_of : Text → Fields F W → Value F W
  unfolding text_eq
  field_of name end = undefined
  field_of name (field key v rest) = if text_eq key name then v else field_of name rest

  -- `value[name]` of a plain object, for a name that it does not inherit.
  unfoldable pub property : Text → Value F W → Value F W
  unfolding field_of
  property name (object fs) = field_of name fs
  property name _ = undefined

  -- The entries of an array.
  unfoldable pub entries_of : Values F W → List (Value F W)
  entries_of nil = []
  entries_of (cons v vs) = v ∷ entries_of vs

  unfoldable pub items_of : Value F W → List (Value F W)
  unfolding entries_of
  items_of (array vs) = entries_of vs
  items_of _ = []
