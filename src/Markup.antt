-- ===== src/Markup.antt =====
-- What JSX describes: a tree of elements. `E` is what a handler does, and `C` are the properties of a
-- component of the program's own. React's `key` is left out: it is no part of what is shown.
pub mod Offers
use push_and_pray.Prelude.{ℕ, Bool, true, false, Option, List, [], ◌∷◌, ◌++◌, String, if◌then◌else◌}
use push_and_pray.Prelude.Text.{Text, codes}

pub data Attribute (E : Type 0) : Type 0 where
  -- `name="value"`
  named : Text → Text → Attribute E
  -- `disabled={...}`, `checked={...}`
  flag : Text → Bool → Attribute E
  -- `size={22}`
  sized : Text → ℕ → Attribute E
  -- `style={{ name: value }}`
  styled : Text → Option Text → Attribute E
  on_click : E → Attribute E
  -- A handler of a change that does not look at the event.
  on_change : E → Attribute E
  -- A handler of `event.target.checked`, at true and at false.
  on_check : E → E → Attribute E
  -- A handler of `event.target.value`, at each value of an option.
  on_select : List (Text × E) → Attribute E

mutual
  pub data Node (E C : Type 0) : Type 0 where
    text : Text → Node E C
    element : Text → List (Attribute E) → Nodes E C → Node E C
    component : C → Node E C
    -- `<Suspense fallback={...}>`: the fallback, and the children.
    suspense : Nodes E C → Nodes E C → Node E C

  pub data Nodes (E C : Type 0) : Type 0 where
    nil : Nodes E C
    cons : Node E C → Nodes E C → Nodes E C

module _ {E C : Type 0} where
  abbrev pub nodes : List (Node E C) → Nodes E C
  nodes [] = nil
  nodes (n ∷ ns) = cons n (nodes ns)

  -- `<tag ...>...</tag>`
  abbrev pub el : String → List (Attribute E) → List (Node E C) → Node E C
  el tag attributes children = element (codes tag) attributes (nodes children)

  -- Text between tags.
  abbrev pub words : String → Node E C
  words s = text (codes s)

module _ {E : Type 0} where
  abbrev pub named_by : String → String → Attribute E
  named_by name value = named (codes name) (codes value)

  abbrev pub class : String → Attribute E
  class value = named_by "className" value

  -- `className={test ? value : ""}`
  abbrev pub class_if : Bool → String → Attribute E
  class_if test value = named (codes "className") (if test then codes value else [])

  -- `style={{ "--series": color }}`
  abbrev pub series_style : Option Text → Attribute E
  series_style color = styled (codes "--series") color

-- `<Icon size={n} />`
abbrev pub icon : {E C : Type 0} → String → ℕ → Node E C
icon tag size = el tag (sized (codes "size") size ∷ []) []
