-- ===== src/Data/Groups/Laws.antt =====
-- The contract of `groupByInstrument`, for any key.
use push_and_pray.Prelude.{
  ◌≡◌, refl, sym, ap, ◌∙◌, ◌≢◌, inl, inr, Bool, true, false, ◌||◌, List, [], ◌∷◌, ◌++◌, append-nil,
  append_assoc, arith, if◌then◌else◌, Bool-cases, All, Any, All-imp, All-zip, select,
}
use push_and_pray.Prelude.Text.{Text, text_eq, text_eq_iff}
use push_and_pray.Js.Outcome.{returns, throws}
use push_and_pray.Js.Object.{Object, is_inherited, push_own, push, entries}
use push_and_pray.Js.Object.Laws.{
  rows_of, rows_of-push_own, Distinct, push_own-All, push_own-Distinct, push_own_nonempty,
  rows_of-entry, rows_of_nonempty, entries-All, entries-Any, entries-Distinct,
}
use push_and_pray.Data.Groups.{group_into}

module _ {A : Type 0} (key : A → Text) where
  -- The rows of one key, in their order.
  abbrev pub rows_with : Text → List A → List A
  rows_with k = select λ x. text_eq (key x) k

  -- A grouping of `xs`: under distinct keys, for each key that occurs all its rows in order.
  pub record IsGrouping (xs : List A) (groups : List (Text × List A)) : Type 0 where
    pub rows : All (λ g. (g.1 ≡ rows_with g.0 xs) × (g.1 ≢ [])) groups
    pub distinct : Distinct groups
    pub covers : All (λ x. Any (λ g. g.0 ≡ key x) groups) xs

  abbrev pub HasPlainKey : A → Type 0
  HasPlainKey x = is_inherited (key x) ≡ false

  pub group_own : Object (List A) → List A → Object (List A)
  group_own groups [] = groups
  group_own groups (x ∷ xs) = group_own (push_own (key x) x groups) xs

  any_inherited : List A → Bool
  any_inherited [] = false
  any_inherited (x ∷ xs) = is_inherited (key x) || any_inherited xs

  -- The loop throws exactly if a key is an inherited name.
  group_into-eq-if :
      (groups : Object (List A)) (xs : List A)
      → group_into key groups xs
        ≡ (if any_inherited xs then throws else returns (group_own groups xs))
  unfolding group_into push any_inherited group_own
  group_into-eq-if groups [] = refl
  group_into-eq-if groups (x ∷ xs) = elim (Bool-cases (is_inherited (key x))) [
    | inl e ↦ rw e
    | inr e ↦ rw e (group_into-eq-if (push_own (key x) x groups) xs)
  ]

  any_inherited-false : (xs : List A) → All HasPlainKey xs → any_inherited xs ≡ false
  unfolding any_inherited
  any_inherited-false [] h = refl
  any_inherited-false (x ∷ xs) h = rw h.0 (any_inherited-false xs h.1)

  any_inherited-true :
      (xs : List A) → Any (λ x. is_inherited (key x) ≡ true) xs → any_inherited xs ≡ true
  unfolding any_inherited
  any_inherited-true [] h = elim h [ ]
  any_inherited-true (x ∷ xs) (inl h) = rw h
  any_inherited-true (x ∷ xs) (inr h) = ground (arith, any_inherited-true xs h)

  pub group_into-returns :
      (xs : List A) → All HasPlainKey xs → group_into key [] xs ≡ returns (group_own [] xs)
  group_into-returns xs h = group_into-eq-if [] xs ∙ (rw (any_inherited-false xs h))

  pub group_into-throws :
      (xs : List A) → Any (λ x. is_inherited (key x) ≡ true) xs → group_into key [] xs ≡ throws
  group_into-throws xs h = group_into-eq-if [] xs ∙ (rw (any_inherited-true xs h))

  rows_of-group_own :
      (j : Text) (groups : Object (List A)) (xs : List A)
      → rows_of j (group_own groups xs) ≡ rows_of j groups ++ rows_with j xs
  unfolding group_own
  rows_of-group_own j groups [] = sym (append-nil _)
  rows_of-group_own j groups (x ∷ xs) =
      rows_of-group_own j (push_own (key x) x groups) xs
      ∙ (rw (rows_of-push_own (key x) j x groups) (elim (Bool-cases (text_eq (key x) j)) [
        | inl e ↦ rw e (append_assoc (rows_of j groups) (x ∷ []) (rows_with j xs))
        | inr e ↦ rw e (ap (λ l. l ++ rows_with j xs) (append-nil (rows_of j groups)))
      ]))

  group_own-Distinct :
      (groups : Object (List A)) (xs : List A) → Distinct groups → Distinct (group_own groups xs)
  unfolding group_own
  group_own-Distinct groups [] h = h
  group_own-Distinct groups (x ∷ xs) h =
      group_own-Distinct (push_own (key x) x groups) xs (push_own-Distinct (key x) x groups h)

  group_own_nonempty :
      (groups : Object (List A)) (xs : List A)
      → All (λ g. ◌≢◌ {A = List A} g.1 []) groups
      → All (λ g. ◌≢◌ {A = List A} g.1 []) (group_own groups xs)
  unfolding group_own
  group_own_nonempty groups [] h = h
  group_own_nonempty groups (x ∷ xs) h =
      group_own_nonempty (push_own (key x) x groups) xs (push_own_nonempty (key x) x groups h)

  pub group_own-All :
      (P : Text → Type 0) (groups : Object (List A)) (xs : List A)
      → All (λ g. P g.0) groups
      → All (λ x. P (key x)) xs
      → All (λ g. P g.0) (group_own groups xs)
  unfolding group_own
  group_own-All P groups [] h k = h
  group_own-All P groups (x ∷ xs) h k =
      group_own-All P (push_own (key x) x groups) xs (push_own-All P (key x) x groups k.0 h) k.1

  select_of_Any-nonempty : (j : Text) (xs : List A) → Any (λ x. key x ≡ j) xs → rows_with j xs ≢ []
  select_of_Any-nonempty j [] h = elim h [ ]
  select_of_Any-nonempty j (x ∷ xs) (inl h) = rw ((text_eq_iff (key x) j).1 h) (λ e. cc)
  select_of_Any-nonempty j (x ∷ xs) (inr h) = elim (Bool-cases (text_eq (key x) j)) [
    | inl e ↦ rw e (λ e'. cc)
    | inr e ↦ rw e (select_of_Any-nonempty j xs h)
  ]

  all_members : (xs : List A) → All (λ x. Any (λ y. key y ≡ key x) xs) xs
  all_members [] = tt
  all_members (x ∷ xs) = (inl refl, All-imp _ _ xs (λ y any. inr any) (all_members xs))

  -- What the loop returns, read by `Object.entries`, is a grouping of its input.
  pub entries-IsGrouping : (xs : List A) → IsGrouping xs (entries (group_own [] xs))
  entries-IsGrouping xs =
      let o = group_own [] xs in
      let distinct = group_own-Distinct [] xs tt in
      record {
        rows = entries-All _ o (
            All-zip (λ g. rows_of g.0 o ≡ g.1) (λ g. ◌≢◌ {A = List A} g.1 []) _ o
              (λ g stored nonempty. (sym stored ∙ stored_rows g.0, nonempty))
              (rows_of-entry o distinct) (group_own_nonempty [] xs tt));
        distinct = entries-Distinct o distinct;
        covers =
            All-imp _ _ xs
              (λ x any. entries-Any _ o (
                rows_of_nonempty (key x) o
                  (rw (stored_rows (key x)) (select_of_Any-nonempty (key x) xs any))))
              (all_members xs);
      }
    where
      stored_rows : (k : Text) → rows_of k (group_own [] xs) ≡ rows_with k xs
      stored_rows k = rows_of-group_own k [] xs ∙ nothing k
        where
          nothing : (k : Text) → rows_of k [] ++ rows_with k xs ≡ rows_with k xs
          nothing k = unfold rows_of in refl
