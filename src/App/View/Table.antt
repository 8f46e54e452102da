-- ===== src/App/View/Table.antt =====
-- The data ledger: `sortedTable`.
use mathlib.Core.List.{Perm}
use push_and_pray.Prelude.{
  ℕ, suc, zero, ◌≡◌, ap, ◌∙◌, min, none, some, List, [], ◌∷◌, ◌++◌, arith, length, length-take,
  take, drop, take-append-drop, All, Ordered, All-zip,
}
use push_and_pray.Prelude.Int.{ℤ, neg, ltb_ℤ, ◌≤ℤ◌}
use push_and_pray.Js.Eq.{Instant}
use push_and_pray.Js.Sort.{is_positive, sort}
use push_and_pray.Js.Sort.Laws.{sort-All, sort-Ordered, length-sort, sort-perm}
use push_and_pray.Types.{Observation, TableOrder, asc, desc, TableLimit}
use push_and_pray.Platform.{Dates}
use push_and_pray.Data.Unique.{minus, happened}
use push_and_pray.Data.Unique.Laws.{IsValidInstant, milliseconds, NotLater, NotLater-of_le}
use push_and_pray.Types.Texts.{limit_rows}
use push_and_pray.App.View.{times_direction, by_time, table_of}

-- The rank by which the rows of an order ascend.
abbrev rank_of : TableOrder → Instant → ℤ
rank_of asc t = milliseconds t
rank_of desc t = neg (milliseconds t)

-- The first of the two rows may stand before the second.
abbrev pub MayPrecede : TableOrder → Instant → Instant → Type 0
MayPrecede asc a b = NotLater a b
MayPrecede desc a b = NotLater b a

MayPrecede-of_rank :
    (order : TableOrder) (a b : Instant)
    → IsValidInstant a
    → IsValidInstant b
    → rank_of order a ≤ℤ rank_of order b
    → MayPrecede order a b
MayPrecede-of_rank asc a b v w h = NotLater-of_le a b v w h
MayPrecede-of_rank desc a b v w h =
    NotLater-of_le b a w v (flip (milliseconds a) (milliseconds b) h)
  where
    flip : (x y : ℤ) → neg x ≤ℤ neg y → y ≤ℤ x
    flip x y h = ground arith

times_direction-agree :
    (order : TableOrder) (a b : Instant)
    → IsValidInstant a
    → IsValidInstant b
    → is_positive (times_direction order (minus a b)) ≡ ltb_ℤ (rank_of order b) (rank_of order a)
unfolding minus
times_direction-agree order none b v w = elim v [ ]
times_direction-agree order (some a) none v w = elim w [ ]
times_direction-agree asc (some a) (some b) v w = ground arith
times_direction-agree desc (some a) (some b) v w = ground arith

module _ {A : Type 0} where
  pub All-take : (P : A → Type 0) (n : ℕ) (xs : List A) → All P xs → All P (take n xs)
  All-take P zero xs h = tt
  All-take P (suc n) [] h = tt
  All-take P (suc n) (x ∷ xs) h = (h.0, All-take P n xs h.1)

  Ordered-take : (R : A → A → Type 0) (n : ℕ) (xs : List A) → Ordered R xs → Ordered R (take n xs)
  Ordered-take R zero xs h = tt
  Ordered-take R (suc n) [] h = tt
  Ordered-take R (suc n) (x ∷ xs) h = (All-take (R x) n xs h.0, Ordered-take R n xs h.1)

  All-drop : (P : A → Type 0) (n : ℕ) (xs : List A) → All P xs → All P (drop n xs)
  All-drop P zero xs h = h
  All-drop P (suc n) [] h = tt
  All-drop P (suc n) (x ∷ xs) h = All-drop P n xs h.1

  -- What is cut off stands behind all that is kept.
  Ordered-split :
      (R : A → A → Type 0) (n : ℕ) (xs : List A)
      → Ordered R xs
      → All (λ x. All (R x) (drop n xs)) (take n xs)
  Ordered-split R zero xs h = tt
  Ordered-split R (suc n) [] h = tt
  Ordered-split R (suc n) (x ∷ xs) h = (All-drop (R x) n xs h.0, Ordered-split R n xs h.1)

module _ ⦃d : Dates⦄ where
  abbrev pub HasTime : Observation → Type 0
  HasTime x = IsValidInstant (happened x)

  abbrev pub InOrder : TableOrder → Observation → Observation → Type 0
  InOrder order x y = MayPrecede order (happened x) (happened y)

  abbrev ByRank : TableOrder → Observation → Observation → Type 0
  ByRank order x y = rank_of order (happened x) ≤ℤ rank_of order (happened y)

  Ordered-of_rank :
      (order : TableOrder) (xs : List Observation)
      → All HasTime xs
      → Ordered (ByRank order) xs
      → Ordered (InOrder order) xs
  Ordered-of_rank order [] v h = tt
  Ordered-of_rank order (x ∷ xs) v h = (
    All-zip HasTime (ByRank order x) (InOrder order x) xs
        (λ y w le. MayPrecede-of_rank order (happened x) (happened y) v.0 w le) v.1 h.0,
    Ordered-of_rank order xs v.1 h.1,
  )

  sort-InOrder :
      (order : TableOrder) (rows : List Observation)
      → All HasTime rows
      → Ordered (InOrder order) (sort (by_time order) rows)
  sort-InOrder order rows v = Ordered-of_rank order _ (sort-All (by_time order) HasTime rows v) (
      sort-Ordered (by_time order) (λ x. rank_of order (happened x)) HasTime
        (λ x y a b. times_direction-agree order (happened x) (happened y) a b) rows v)

  -- The rows that the limit cuts off.
  pub hidden_rows : TableOrder → TableLimit → List Observation → List Observation
  hidden_rows order limit rows = drop (limit_rows limit) (sort (by_time order) rows)

  -- The rows that the ledger shows and those that its limit hides are together, up to order, the
  -- visible observations.
  table_of-perm :
      (order : TableOrder) (limit : TableLimit) (rows : List Observation)
      → Perm (table_of order limit rows ++ hidden_rows order limit rows) rows
  unfolding table_of hidden_rows
  table_of-perm order limit rows =
      rw (take-append-drop (limit_rows limit) (sort (by_time order) rows))
        (sort-perm (by_time order) rows)

  -- The ledger shows as many rows as the limit allows, in the chosen order, and no row that it leaves
  -- out comes before one that it shows, if every event time can be read; the shown and the hidden
  -- rows together are, up to order, the rows that it is given.
  pub table_of-Ordered :
      (order : TableOrder) (limit : TableLimit) (rows : List Observation)
      → All HasTime rows
      → (length (table_of order limit rows) ≡ min (limit_rows limit) (length rows))
        × Ordered (InOrder order) (table_of order limit rows)
        × All
            (λ x. All (InOrder order x) (hidden_rows order limit rows))
            (table_of order limit rows)
        × Perm (table_of order limit rows ++ hidden_rows order limit rows) rows
  unfolding table_of hidden_rows
  table_of-Ordered order limit rows v = (
    length-take (limit_rows limit) (sort (by_time order) rows)
        ∙ ap (min (limit_rows limit)) (length-sort (by_time order) rows),
    Ordered-take _ (limit_rows limit) _ (sort-InOrder order rows v),
    Ordered-split _ (limit_rows limit) _ (sort-InOrder order rows v),
    table_of-perm order limit rows,
  )
