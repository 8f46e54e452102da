-- ===== src/Prelude/Predicates.antt =====
-- Predicates on lists by recursion, which compute to tuples and sums.
use mathlib.Core.Path.{◌≡◌, refl, ap}
use mathlib.Core.Bool.{Bool, true, not}
use mathlib.Core.Logic.{◌⊎◌, inl, inr}
use mathlib.Core.List.{List, [], ◌∷◌, ◌++◌}
use native.Mathlib.Omega.{arith}
use push_and_pray.Prelude.Tests.{Bool-cases}
use push_and_pray.Prelude.Lists.{select}

module _ {ℓ} {A : Type ℓ} where
  abbrev pub All : (A → Type 0) → List A → Type 0
  All P [] = Unit
  All P (x ∷ xs) = P x × All P xs

  abbrev pub Any : (A → Type 0) → List A → Type 0
  Any P [] = ⊥
  Any P (x ∷ xs) = P x ⊎ Any P xs

  -- Every earlier entry is related to every later one.
  abbrev pub Ordered : (A → A → Type 0) → List A → Type 0
  Ordered R [] = Unit
  Ordered R (x ∷ xs) = All (R x) xs × Ordered R xs

  pub All-imp : (P Q : A → Type 0) (xs : List A) → ((x : A) → P x → Q x) → All P xs → All Q xs
  All-imp P Q [] f h = tt
  All-imp P Q (x ∷ xs) f h = (f x h.0, All-imp P Q xs f h.1)

  pub All-of_forall : (P : A → Type 0) (xs : List A) → ((x : A) → P x) → All P xs
  All-of_forall P [] f = tt
  All-of_forall P (x ∷ xs) f = (f x, All-of_forall P xs f)

  pub All-zip :
      (P Q R : A → Type 0) (xs : List A)
      → ((x : A) → P x → Q x → R x)
      → All P xs
      → All Q xs
      → All R xs
  All-zip P Q R [] f h k = tt
  All-zip P Q R (x ∷ xs) f h k = (f x h.0 k.0, All-zip P Q R xs f h.1 k.1)

  pub Any-imp : (P Q : A → Type 0) (xs : List A) → ((x : A) → P x → Q x) → Any P xs → Any Q xs
  Any-imp P Q [] f h = elim h [ ]
  Any-imp P Q (x ∷ xs) f (inl h) = inl (f x h)
  Any-imp P Q (x ∷ xs) f (inr h) = inr (Any-imp P Q xs f h)

  pub All-append : (P : A → Type 0) (xs ys : List A) → All P xs → All P ys → All P (xs ++ ys)
  All-append P [] ys h k = k
  All-append P (x ∷ xs) ys h k = (h.0, All-append P xs ys h.1 k)

  pub All-append_left : (P : A → Type 0) (xs ys : List A) → All P (xs ++ ys) → All P xs
  All-append_left P [] ys h = tt
  All-append_left P (x ∷ xs) ys h = (h.0, All-append_left P xs ys h.1)

  pub All-append_right : (P : A → Type 0) (xs ys : List A) → All P (xs ++ ys) → All P ys
  All-append_right P [] ys h = h
  All-append_right P (x ∷ xs) ys h = All-append_right P xs ys h.1

  pub All-select : (P : A → Type 0) (p : A → Bool) (xs : List A) → All P xs → All P (select p xs)
  All-select P p [] h = tt
  All-select P p (x ∷ xs) h = ground (arith, All-select P p xs h.1)

  -- What passed a test satisfies it.
  pub select-All : (p : A → Bool) (xs : List A) → All (λ x. p x ≡ true) (select p xs)
  select-All p [] = tt
  select-All p (x ∷ xs) = ground (arith, select-All p xs)

  pub select-eq_self : (p : A → Bool) (xs : List A) → All (λ x. p x ≡ true) xs → select p xs ≡ xs
  select-eq_self p [] h = refl
  select-eq_self p (x ∷ xs) h = rw h.0 (ap (x ∷◌) (select-eq_self p xs h.1))

  pub Any-of_All : (P Q : A → Type 0) (xs : List A) → All P xs → Any Q xs → Any (λ x. P x × Q x) xs
  Any-of_All P Q [] h k = elim k [ ]
  Any-of_All P Q (x ∷ xs) h (inl k) = inl (h.0, k)
  Any-of_All P Q (x ∷ xs) h (inr k) = inr (Any-of_All P Q xs h.1 k)

  pub Ordered-imp :
      (R S : A → A → Type 0) (xs : List A)
      → ((x y : A) → R x y → S x y)
      → Ordered R xs
      → Ordered S xs
  Ordered-imp R S [] f h = tt
  Ordered-imp R S (x ∷ xs) f h = (All-imp (R x) (S x) xs (f x) h.0, Ordered-imp R S xs f h.1)

  pub Ordered-select :
      (R : A → A → Type 0) (p : A → Bool) (xs : List A) → Ordered R xs → Ordered R (select p xs)
  Ordered-select R p [] h = tt
  Ordered-select R p (x ∷ xs) h = elim (Bool-cases (p x)) [
    | inl e ↦ rw e (All-select (R x) p xs h.0, Ordered-select R p xs h.1)
    | inr e ↦ rw e (Ordered-select R p xs h.1)
  ]

  pub Ordered-append :
      (R : A → A → Type 0) (xs ys : List A)
      → Ordered R xs
      → Ordered R ys
      → All (λ x. All (R x) ys) xs
      → Ordered R (xs ++ ys)
  Ordered-append R [] ys h k c = k
  Ordered-append R (x ∷ xs) ys h k c =
      (All-append (R x) xs ys h.0 c.0, Ordered-append R xs ys h.1 k c.1)

  pub Ordered-append_left :
      (R : A → A → Type 0) (xs ys : List A) → Ordered R (xs ++ ys) → Ordered R xs
  Ordered-append_left R [] ys h = tt
  Ordered-append_left R (x ∷ xs) ys h =
      (All-append_left (R x) xs ys h.0, Ordered-append_left R xs ys h.1)

  pub Ordered-append_right :
      (R : A → A → Type 0) (xs ys : List A) → Ordered R (xs ++ ys) → Ordered R ys
  Ordered-append_right R [] ys h = h
  Ordered-append_right R (x ∷ xs) ys h = Ordered-append_right R xs ys h.1

  pub Any-append_left : (P : A → Type 0) (xs ys : List A) → Any P xs → Any P (xs ++ ys)
  Any-append_left P [] ys h = elim h [ ]
  Any-append_left P (x ∷ xs) ys (inl h) = inl h
  Any-append_left P (x ∷ xs) ys (inr h) = inr (Any-append_left P xs ys h)

  pub Any-append_right : (P : A → Type 0) (xs ys : List A) → Any P ys → Any P (xs ++ ys)
  Any-append_right P [] ys h = h
  Any-append_right P (x ∷ xs) ys h = inr (Any-append_right P xs ys h)

  -- Each entry passes a test or fails it.
  pub Any-partition :
      (P : A → Type 0) (p : A → Bool) (xs : List A)
      → Any P xs
      → Any P (select p xs) ⊎ Any P (select (λ x. not (p x)) xs)
  Any-partition P p [] h = elim h [ ]
  Any-partition P p (x ∷ xs) (inl h) = elim (Bool-cases (p x)) [
    | inl e ↦ rw e (inl (inl h))
    | inr e ↦ rw e (inr (inl h))
  ]
  Any-partition P p (x ∷ xs) (inr h) = elim (Bool-cases (p x)) [
    | inl e ↦ rw e (elim (Any-partition P p xs h) [ inl k ↦ inl (inr k) | inr k ↦ inr k ])
    | inr e ↦ rw e (elim (Any-partition P p xs h) [ inl k ↦ inl k | inr k ↦ inr (inr k) ])
  ]
