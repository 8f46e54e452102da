-- ===== src/Markup/Offers.antt =====
-- What the handlers of a tree can cause.
use push_and_pray.Prelude.{
  ◌≡◌, refl, sym, ap, ◌∙◌, Bool, false, ◌||◌, ◌&&◌, List, [], ◌∷◌, ◌++◌, append_assoc, map,
  if◌then◌else◌,
}
use push_and_pray.Prelude.Text.{codes, text_eq}
use push_and_pray.Markup.{
  Attribute, named, flag, sized, styled, on_click, on_change, on_check, on_select, Node, text,
  element, component, suspense, Nodes, nil, cons, nodes,
}

module _ {E : Type 0} where
  -- An element with the attribute `disabled` handles nothing.
  unfoldable pub is_disabled : List (Attribute E) → Bool
  unfolding text_eq
  is_disabled [] = false
  is_disabled (flag name b ∷ rest) = (text_eq name (codes "disabled") && b) || is_disabled rest
  is_disabled (named name value ∷ rest) = is_disabled rest
  is_disabled (sized name value ∷ rest) = is_disabled rest
  is_disabled (styled name value ∷ rest) = is_disabled rest
  is_disabled (on_click e ∷ rest) = is_disabled rest
  is_disabled (on_change e ∷ rest) = is_disabled rest
  is_disabled (on_check e f ∷ rest) = is_disabled rest
  is_disabled (on_select choices ∷ rest) = is_disabled rest

  unfoldable pub handled : List (Attribute E) → List E
  handled [] = []
  handled (named name value ∷ rest) = handled rest
  handled (flag name b ∷ rest) = handled rest
  handled (sized name value ∷ rest) = handled rest
  handled (styled name value ∷ rest) = handled rest
  handled (on_click e ∷ rest) = e ∷ handled rest
  handled (on_change e ∷ rest) = e ∷ handled rest
  handled (on_check e f ∷ rest) = e ∷ f ∷ handled rest
  handled (on_select choices ∷ rest) = map (λ c. c.1) choices ++ handled rest

unfoldable mutual
  unfolding is_disabled handled

  pub offers : {E C : Type 0} → Node E C → List E
  offers (text t) = []
  offers (element tag attributes children) =
      (if is_disabled attributes then [] else handled attributes) ++ offers_all children
  offers (component c) = []
  offers (suspense fallback children) = offers_all children

  pub offers_all : {E C : Type 0} → Nodes E C → List E
  offers_all nil = []
  offers_all (cons n ns) = offers n ++ offers_all ns

module _ {E C : Type 0} where
  pub offers_all-append :
      (ms ns : List (Node E C))
      → offers_all (nodes (ms ++ ns)) ≡ offers_all (nodes ms) ++ offers_all (nodes ns)
  unfolding offers_all
  offers_all-append [] ns = refl
  offers_all-append (m ∷ ms) ns =
      ap (offers m ++◌) (offers_all-append ms ns)
      ∙ sym (append_assoc (offers m) (offers_all (nodes ms)) (offers_all (nodes ns)))

  pub offers_all-map_none :
      {A : Type 0} (f : A → Node E C) (xs : List A)
      → ((x : A) → offers (f x) ≡ [])
      → offers_all (nodes (map f xs)) ≡ []
  unfolding offers_all
  offers_all-map_none f [] h = refl
  offers_all-map_none f (x ∷ xs) h = rw (h x) (offers_all-map_none f xs h)

  pub offers_all-map_one :
      {A : Type 0} (f : A → Node E C) (g : A → E) (xs : List A)
      → ((x : A) → offers (f x) ≡ g x ∷ [])
      → offers_all (nodes (map f xs)) ≡ map g xs
  unfolding offers_all
  offers_all-map_one f g [] h = refl
  offers_all-map_one f g (x ∷ xs) h = rw (h x) (ap (g x ∷◌) (offers_all-map_one f g xs h))
