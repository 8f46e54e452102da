-- ===== src/Js/KeyMap.antt =====
-- `Map` and `Set`: pairs in the order of first insertion; a later `set` of a key keeps its place.
pub mod Laws
use push_and_pray.Prelude.{Bool, false, ◌||◌, Option, none, some, List, [], ◌∷◌, if◌then◌else◌}
use push_and_pray.Js.Eq.{Eq, ◌===◌}

abbrev pub KeyMap {ℓ κ} : Type ℓ → Type κ → Type (ℓ ⊔ κ)
KeyMap K V = List (K × V)

module _ {ℓ κ} {K : Type ℓ} {V : Type κ} ⦃e : Eq K⦄ where
  unfoldable pub set : K → V → KeyMap K V → KeyMap K V
  set k v [] = (k, v) ∷ []
  set k v ((j, w) ∷ m) = if j === k then (k, v) ∷ m else (j, w) ∷ set k v m

  unfoldable pub get : K → KeyMap K V → Option V
  get k [] = none
  get k ((j, v) ∷ m) = if j === k then some v else get k m

  -- `new Map(pairs)`
  unfoldable pub set_all : List (K × V) → KeyMap K V → KeyMap K V
  set_all [] m = m
  set_all ((k, v) ∷ rest) m = set_all rest (set k v m)

-- `[...map.values()]`
unfoldable pub values {ℓ κ} : {K : Type ℓ} {V : Type κ} → KeyMap K V → List V
values [] = []
values ((k, v) ∷ m) = v ∷ values m

-- `new Set(list).has(x)`
unfoldable pub has {ℓ} : {K : Type ℓ} ⦃e : Eq K⦄ → List K → K → Bool
has [] x = false
has (y ∷ ys) x = (y === x) || has ys x
