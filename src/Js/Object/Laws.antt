-- ===== src/Js/Object/Laws.antt =====
-- Facts about plain objects as dictionaries.
use push_and_pray.Prelude.{
  ◌≡◌, refl, sym, ◌≢◌, inl, inr, Bool, true, false, not, List, [], ◌∷◌, ◌++◌, arith, if◌then◌else◌,
  Bool-cases, All, Any, Ordered, select, append-nil, All-append, All-select, All-imp, select-All,
  Any-partition, Any-append_left, Any-append_right, Ordered-append, Ordered-select,
}
use push_and_pray.Prelude.Text.{Text, text_eq, text_eq_refl, text_eq_iff}
use push_and_pray.Js.Sort.{sort}
use push_and_pray.Js.Sort.Laws.{sort-All, sort-Any, sort-Ordered_symm}
use mathlib.Core.List.{Perm, perm_middle}
use mathlib.Core.List.Perm
use push_and_pray.Js.Object.{Object, push_own, has_index, index_order, entries}

-- Keys are distinct.
abbrev pub Distinct {ℓ} : {V : Type ℓ} → Object V → Type 0
Distinct = Ordered (λ p q. p.0 ≢ q.0)

module _ {V : Type 0} where
  -- What is stored under a key, nothing where it is missing.
  unfoldable pub rows_of : Text → Object (List V) → List V
  rows_of k [] = []
  rows_of k ((j, vs) ∷ o) = if text_eq j k then vs else rows_of k o

  -- A push adds to its own key's rows, behind them, and to no other key's.
  pub rows_of-push_own :
      (k j : Text) (v : V) (o : Object (List V))
      → rows_of j (push_own k v o) ≡ rows_of j o ++ (if text_eq k j then v ∷ [] else [])
  unfolding rows_of push_own
  rows_of-push_own k j v [] = ground arith
  rows_of-push_own k j v ((i, vs) ∷ o) = elim (Bool-cases (text_eq i k)) [
    | inl e ↦
        rw (e, (text_eq_iff i k).0 e)
          (elim (Bool-cases (text_eq k j)) [ inl f ↦ rw f | inr f ↦ rw f (sym (append-nil _)) ])
    | inr e ↦ rw e (elim (Bool-cases (text_eq i j)) [
      | inl f ↦
          let g : text_eq k j ≡ false =
            ground (arith, text_eq_iff i j, text_eq_iff k j, text_eq_iff i k) in
          rw (f, g) (sym (append-nil vs))
      | inr f ↦ rw f (rows_of-push_own k j v o)
    ])
  ]

  pub push_own-All :
      (P : Text → Type 0) (k : Text) (v : V) (o : Object (List V))
      → P k
      → All (λ p. P p.0) o
      → All (λ p. P p.0) (push_own k v o)
  unfolding push_own
  push_own-All P k v [] h hs = (h, tt)
  push_own-All P k v ((i, vs) ∷ o) h hs = elim (Bool-cases (text_eq i k)) [
    | inl e ↦ rw e hs
    | inr e ↦ rw e (hs.0, push_own-All P k v o h hs.1)
  ]

  pub push_own-Distinct :
      (k : Text) (v : V) (o : Object (List V)) → Distinct o → Distinct (push_own k v o)
  unfolding push_own
  push_own-Distinct k v [] h = (tt, tt)
  push_own-Distinct k v ((i, vs) ∷ o) h = elim (Bool-cases (text_eq i k)) [
    | inl e ↦ rw e h
    | inr e ↦
        let apart : i ≢ k = λ same. cc (e, (text_eq_iff i k).1 same) in
        rw e (push_own-All (λ j. i ≢ j) k v o apart h.0, push_own-Distinct k v o h.1)
  ]

  append-ne-nil : (vs : List V) (v : V) → vs ++ (v ∷ []) ≢ []
  append-ne-nil [] v h = cc
  append-ne-nil (x ∷ xs) v h = cc

  pub push_own_nonempty :
      (k : Text) (v : V) (o : Object (List V))
      → All (λ p. ◌≢◌ {A = List V} p.1 []) o
      → All (λ p. ◌≢◌ {A = List V} p.1 []) (push_own k v o)
  unfolding push_own
  push_own_nonempty k v [] h = (append-ne-nil [] v, tt)
  push_own_nonempty k v ((i, vs) ∷ o) h = elim (Bool-cases (text_eq i k)) [
    | inl e ↦ rw e (append-ne-nil vs v, h.1)
    | inr e ↦ rw e (h.0, push_own_nonempty k v o h.1)
  ]

  rows_of-cons :
      (i : Text) (vs : List V) (o p : Object (List V))
      → All (λ q. i ≢ q.0) p
      → All (λ q. rows_of q.0 o ≡ q.1) p
      → All (λ q. rows_of q.0 ((i, vs) ∷ o) ≡ q.1) p
  unfolding rows_of
  rows_of-cons i vs o [] h k = tt
  rows_of-cons i vs o ((j, ws) ∷ p) h k =
      let apart : text_eq i j ≡ false = ground (arith, text_eq_iff i j, h.0) in
      (rw apart k.0, rows_of-cons i vs o p h.1 k.1)

  -- Where keys are distinct every property's rows are those of its key.
  pub rows_of-entry : (o : Object (List V)) → Distinct o → All (λ q. rows_of q.0 o ≡ q.1) o
  rows_of-entry [] h = tt
  rows_of-entry ((i, vs) ∷ o) h = (
    (unfold rows_of in rw (text_eq_refl i) refl),
    rows_of-cons i vs o o h.0 (rows_of-entry o h.1),
  )

  -- Rows are stored under some key.
  pub rows_of_nonempty : (k : Text) (o : Object (List V)) → rows_of k o ≢ [] → Any (λ q. q.0 ≡ k) o
  unfolding rows_of
  rows_of_nonempty k [] h = absurd (h refl)
  rows_of_nonempty k ((i, vs) ∷ o) h = elim (Bool-cases (text_eq i k)) [
    | inl e ↦ inl ((text_eq_iff i k).0 e)
    | inr e ↦ inr (rows_of_nonempty k o (rw e at h))
  ]

module _ {V : Type 0} where
  partition-perm :
      (p : Text × V → Bool) (o : Object V) → Perm (select p o ++ select (λ q. not (p q)) o) o
  partition-perm p [] = Perm.refl []
  partition-perm p (q ∷ o) = elim (Bool-cases (p q)) [
    | inl e ↦ rw e (Perm.cons q (partition-perm p o))
    | inr e ↦ rw e (
        Perm.trans (perm_middle (select p o) (select (λ q. not (p q)) o))
          (Perm.cons q (partition-perm p o)))
  ]

  pub entries-All : (P : Text × V → Type 0) (o : Object V) → All P o → All P (entries o)
  unfolding entries
  entries-All P o h =
      All-append P _ _ (sort-All index_order P _ (All-select P has_index o h))
        (All-select P (λ q. not (has_index q)) o h)

  pub entries-Any : (P : Text × V → Type 0) (o : Object V) → Any P o → Any P (entries o)
  unfolding entries
  entries-Any P o h = elim (Any-partition P has_index o h) [
    | inl k ↦ Any-append_left P _ _ (sort-Any index_order P _ k)
    | inr k ↦ Any-append_right P (sort index_order (select has_index o)) _ k
  ]

  pub entries-Distinct : (o : Object V) → Distinct o → Distinct (entries o)
  unfolding entries
  entries-Distinct o h =
      Ordered-append (λ p q. p.0 ≢ q.0) (sort index_order (select has_index o))
        (select (λ q. not (has_index q)) o)
        (sort-Ordered_symm index_order (λ p q. p.0 ≢ q.0) (λ x y ne e. ne (sym e)) _
          (Ordered-select _ has_index o h))
        (Ordered-select _ (λ q. not (has_index q)) o h)
        (All-imp _ _ _
          (λ x yes_index.
            All-imp _ _ _ (λ y no_index same. mixed x y yes_index no_index same)
              (select-All (λ q. not (has_index q)) o))
          (sort-All index_order (λ x. has_index x ≡ true) _ (select-All has_index o)))
    where
      mixed : (x y : Text × V) → has_index x ≡ true → not (has_index y) ≡ true → x.0 ≡ y.0 → ⊥
      mixed x y a b same = ground arith
