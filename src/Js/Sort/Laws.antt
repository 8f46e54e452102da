-- ===== src/Js/Sort/Laws.antt =====
-- Facts about `sort`: it permutes, it orders, and it keeps the order of equals.
use mathlib.Core.List.{Perm}
use mathlib.Core.List.Perm
use push_and_pray.Prelude.{
  ◌≡◌, refl, ◌⊎◌, inl, inr, true, false, Option, List, [], ◌∷◌, arith, Bool-cases, All, Any,
  Ordered, All-imp, length, suc,
}
use push_and_pray.Prelude.Int.{ℤ, ltb_ℤ, ◌≤ℤ◌}
use push_and_pray.Js.Sort.{is_positive, insert, sort}

module _ {ℓ} {A : Type ℓ} (compare : A → A → Option ℤ) where
  insert-perm : (x : A) (ys : List A) → Perm (insert compare x ys) (x ∷ ys)
  unfolding insert
  insert-perm x [] = Perm.refl (x ∷ [])
  insert-perm x (y ∷ ys) = elim (Bool-cases (is_positive (compare x y))) [
    | inl e ↦ rw e (Perm.trans (Perm.cons y (insert-perm x ys)) (Perm.swap x y ys))
    | inr e ↦ rw e (Perm.refl (x ∷ y ∷ ys))
  ]

  -- Sorting loses and invents nothing.
  pub sort-perm : (xs : List A) → Perm (sort compare xs) xs
  unfolding sort
  sort-perm [] = Perm.refl []
  sort-perm (x ∷ xs) = Perm.trans (insert-perm x (sort compare xs)) (Perm.cons x (sort-perm xs))

  length-insert : (x : A) (ys : List A) → length (insert compare x ys) ≡ suc (length ys)
  unfolding insert
  length-insert x [] = refl
  length-insert x (y ∷ ys) = ground (arith, length-insert x ys)

  pub length-sort : (xs : List A) → length (sort compare xs) ≡ length xs
  unfolding sort
  length-sort [] = refl
  length-sort (x ∷ xs) = omega (arith, length-insert x (sort compare xs), length-sort xs)

  module _ (P : A → Type 0) where
    insert-All : (x : A) (ys : List A) → P x → All P ys → All P (insert compare x ys)
    unfolding insert
    insert-All x [] h k = (h, tt)
    insert-All x (y ∷ ys) h k = elim (Bool-cases (is_positive (compare x y))) [
      | inl e ↦ rw e (k.0, insert-All x ys h k.1)
      | inr e ↦ rw e (h, k)
    ]

    insert-All_inv : (x : A) (ys : List A) → All P (insert compare x ys) → P x × All P ys
    unfolding insert
    insert-All_inv x [] h = h
    insert-All_inv x (y ∷ ys) h = elim (Bool-cases (is_positive (compare x y))) [
      | inl e ↦
          let h' : P y × All P (insert compare x ys) = rw e at h in
          let (hx, hs) = insert-All_inv x ys h'.1 in (hx, (h'.0, hs))
      | inr e ↦ rw e at h
    ]

    insert-Any : (x : A) (ys : List A) → P x ⊎ Any P ys → Any P (insert compare x ys)
    unfolding insert
    insert-Any x [] h = h
    insert-Any x (y ∷ ys) (inl h) = elim (Bool-cases (is_positive (compare x y))) [
      | inl e ↦ rw e (inr (insert-Any x ys (inl h)))
      | inr e ↦ rw e (inl h)
    ]
    insert-Any x (y ∷ ys) (inr (inl h)) = elim (Bool-cases (is_positive (compare x y))) [
      | inl e ↦ rw e (inl h)
      | inr e ↦ rw e (inr (inl h))
    ]
    insert-Any x (y ∷ ys) (inr (inr h)) = elim (Bool-cases (is_positive (compare x y))) [
      | inl e ↦ rw e (inr (insert-Any x ys (inr h)))
      | inr e ↦ rw e (inr (inr h))
    ]

    pub sort-All : (xs : List A) → All P xs → All P (sort compare xs)
    unfolding sort
    sort-All [] h = tt
    sort-All (x ∷ xs) h = insert-All x (sort compare xs) h.0 (sort-All xs h.1)

    pub sort-All_inv : (xs : List A) → All P (sort compare xs) → All P xs
    unfolding sort
    sort-All_inv [] h = tt
    sort-All_inv (x ∷ xs) h =
        let (hx, hs) = insert-All_inv x (sort compare xs) h in (hx, sort-All_inv xs hs)

    pub sort-Any : (xs : List A) → Any P xs → Any P (sort compare xs)
    unfolding sort
    sort-Any [] h = h
    sort-Any (x ∷ xs) (inl h) = insert-Any x (sort compare xs) (inl h)
    sort-Any (x ∷ xs) (inr h) = insert-Any x (sort compare xs) (inr (sort-Any xs h))

  -- A symmetric relation between all entries survives.
  module _ (R : A → A → Type 0) (sym_R : (x y : A) → R x y → R y x) where
    insert-Ordered_symm :
        (x : A) (ys : List A) → All (R x) ys → Ordered R ys → Ordered R (insert compare x ys)
    unfolding insert
    insert-Ordered_symm x [] h k = (tt, tt)
    insert-Ordered_symm x (y ∷ ys) h k = elim (Bool-cases (is_positive (compare x y))) [
      | inl e ↦ rw e (insert-All (R y) x ys (sym_R x y h.0) k.0, insert-Ordered_symm x ys h.1 k.1)
      | inr e ↦ rw e (h, k)
    ]

    pub sort-Ordered_symm : (xs : List A) → Ordered R xs → Ordered R (sort compare xs)
    unfolding sort
    sort-Ordered_symm [] h = tt
    sort-Ordered_symm (x ∷ xs) h =
        insert-Ordered_symm x (sort compare xs) (sort-All (R x) xs h.0) (sort-Ordered_symm xs h.1)

  -- Equals keep their order: what holds from each entry to those behind it still does, unless the
  -- comparator put the two in order.
  module _ (R : A → A → Type 0) where
    abbrev pub InOrder : A → A → Type 0
    InOrder x y = (is_positive (compare y x) ≡ true) ⊎ R x y

    insert-InOrder :
        (x : A) (ys : List A)
        → All (R x) ys
        → Ordered InOrder ys
        → Ordered InOrder (insert compare x ys)
    unfolding insert
    insert-InOrder x [] h k = (tt, tt)
    insert-InOrder x (y ∷ ys) h k = elim (Bool-cases (is_positive (compare x y))) [
      | inl e ↦ rw e (insert-All (InOrder y) x ys (inl e) k.0, insert-InOrder x ys h.1 k.1)
      | inr e ↦ rw e ((inr h.0, All-imp (R x) (InOrder x) ys (λ z r. inr r) h.1), k)
    ]

    pub sort-InOrder : (xs : List A) → Ordered R xs → Ordered InOrder (sort compare xs)
    unfolding sort
    sort-InOrder [] h = tt
    sort-InOrder (x ∷ xs) h =
        insert-InOrder x (sort compare xs) (sort-All (R x) xs h.0) (sort-InOrder xs h.1)

  -- Where the comparator orders the entries of `V` by their ranks.
  module _ (rank : A → ℤ) (V : A → Type 0)
      (agree : (x y : A) → V x → V y → is_positive (compare x y) ≡ ltb_ℤ (rank y) (rank x)) where
    abbrev pub Below : A → A → Type 0
    Below x y = rank x ≤ℤ rank y

    insert-Ordered :
        (x : A) (ys : List A)
        → V x
        → All V ys
        → Ordered Below ys
        → Ordered Below (insert compare x ys)
    unfolding insert
    insert-Ordered x [] v vs k = (tt, tt)
    insert-Ordered x (y ∷ ys) v vs k = elim (Bool-cases (is_positive (compare x y))) [
      | inl e ↦
          let t : ltb_ℤ (rank y) (rank x) ≡ true = rw (← agree x y v vs.0) e in
          let le : Below y x = ground arith in
          rw e (insert-All (Below y) x ys le k.0, insert-Ordered x ys v vs.1 k.1)
      | inr e ↦
          let t : ltb_ℤ (rank y) (rank x) ≡ false = rw (← agree x y v vs.0) e in
          let le : Below x y = ground arith in
          rw e ((le, All-imp (Below y) (Below x) ys (λ z h. omega arith) k.0), k)
    ]

    -- The result ascends.
    pub sort-Ordered : (xs : List A) → All V xs → Ordered Below (sort compare xs)
    unfolding sort
    sort-Ordered [] vs = tt
    sort-Ordered (x ∷ xs) vs =
        insert-Ordered x (sort compare xs) vs.0 (sort-All V xs vs.1) (sort-Ordered xs vs.1)
