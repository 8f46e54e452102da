-- ===== src/App/View/Cards/Delta.antt =====
-- Against which observation a card shows its change.
use push_and_pray.Prelude.{
  ◌≡◌, ◌≢◌, refl, sym, ◌⊎◌, inl, inr, none, some, List, [], ◌∷◌, All, Any, All-imp, subst, arith,
  Ordered,
}
use push_and_pray.Prelude.Int.{pos, negsuc}
use push_and_pray.Js.Eq.{Instant}
use push_and_pray.Js.Outcome.{returns}
use push_and_pray.Js.Object.{Object}
use push_and_pray.Types.{Observation}
use push_and_pray.Platform.{Dates, Number}
use push_and_pray.Data.Unique.{happened, unique_chronological}
use push_and_pray.Data.Unique.Laws.{Earlier, NotLater, NotLater-refl, IsDated, Replaces}
use push_and_pray.Data.Unique.Result.{
  unique_chronological-Ordered, unique_chronological-covers, unique_chronological-All,
  unique_chronological-subset,
}
use push_and_pray.Data.Points.{percent_change}
use push_and_pray.App.View.Cards.{rows_or_throw, previous, delta_for}

NotLater-of_Earlier : (a b : Instant) → Earlier a b → NotLater a b
NotLater-of_Earlier none b h = h
NotLater-of_Earlier (some a) none h = h
NotLater-of_Earlier (some a) (some b) h = omega arith

Earlier-irrefl : (a : Instant) → ¬ (Earlier a a)
Earlier-irrefl none h = h
Earlier-irrefl (some (pos a)) h = omega (arith, h)
Earlier-irrefl (some (negsuc a)) h = omega (arith, h)

Earlier-ne : (a b : Instant) → Earlier a b → a ≢ b
Earlier-ne a b h same = Earlier-irrefl a (subst (Earlier a) (sym same) h)

module _ ⦃d : Dates⦄ where
  -- All observations have one event time.
  abbrev pub AreSimultaneous : List Observation → Type 0
  AreSimultaneous rows = All (λ a. All (λ b. happened a ≡ happened b) rows) rows

  -- An observation that is none of the newest, and that every other such observation does not follow.
  pub record IsBeforeNewest (x : Observation) (rows : List Observation) : Type 0 where
    pub newest : Observation
    pub given : Any (λ r. r ≡ newest) rows
    pub earlier : Earlier (happened x) (happened newest)
    pub others : All (λ r. (happened r ≡ happened newest) ⊎ NotLater (happened r) (happened x)) rows

  -- What `rows.at(-2)` is of rows whose event times strictly ascend.
  abbrev Found : List Observation → Type 0
  Found rows =
      ((previous rows ≡ none) × AreSimultaneous rows)
      ⊎ ((x : Observation) × (previous rows ≡ some x)
          × Any (λ r. r ≡ x) rows
          × IsBeforeNewest x rows)

  abbrev Ascends : List Observation → Type 0
  Ascends = Ordered (λ x y. Earlier (happened x) (happened y))

  Any-All :
      (P : Observation → Type 0) (x : Observation) (rows : List Observation)
      → Any (λ r. r ≡ x) rows
      → All P rows
      → P x
  Any-All P x [] any h = elim any [ ]
  Any-All P x (r ∷ rs) (inl same) h = subst P same h.0
  Any-All P x (r ∷ rs) (inr any) h = Any-All P x rs any h.1

  previous-Found : (rows : List Observation) → All IsDated rows → Ascends rows → Found rows
  unfolding previous
  previous-Found [] v h = inl (refl, tt)
  previous-Found (a ∷ []) v h = inl (refl, ((refl, tt), tt))
  previous-Found (a ∷ b ∷ []) v h = inr (
    a,
    refl,
    inl refl,
    record {
      newest = b;
      given = inr (inl refl);
      earlier = h.0.0;
      others = (inr (NotLater-refl (happened a) v.0.1), (inl refl, tt));
    },
  )
  previous-Found (a ∷ b ∷ c ∷ rows) v h = elim (previous-Found (b ∷ c ∷ rows) v.1 h.1) [
    | inl single ↦ absurd (Earlier-ne _ _ h.1.0.0 single.1.0.1.0)
    | inr (x, found, there, best) ↦ inr (
      x,
      found,
      inr there,
      record {
        newest = best.newest;
        given = inr best.given;
        earlier = best.earlier;
        others =
            (inr (NotLater-of_Earlier _ _ (Any-All _ x (b ∷ c ∷ rows) there h.0)), best.others);
      },
    )
  ]

  -- What holds of the event times of the result holds of all the rows' event times.
  transfer :
      (Q : Instant → Type 0) (rows : List Observation)
      → All IsDated rows
      → All (λ z. Q (happened z)) (unique_chronological rows)
      → All (λ r. Q (happened r)) rows
  transfer Q rows v h =
      All-imp (λ r. Any (Replaces r) (unique_chronological rows)) _ rows
        (λ r any. held r (unique_chronological rows) any h) (unique_chronological-covers rows v)
    where
      held :
          (r : Observation) (zs : List Observation)
          → Any (Replaces r) zs
          → All (λ z. Q (happened z)) zs
          → Q (happened r)
      held r [] any k = elim any [ ]
      held r (z ∷ zs) (inl same) k = subst Q same.0 k.0
      held r (z ∷ zs) (inr any) k = held r zs any k.1

  AreSimultaneous-unique :
      (rows : List Observation)
      → All IsDated rows
      → AreSimultaneous (unique_chronological rows)
      → AreSimultaneous rows
  AreSimultaneous-unique rows v h =
      transfer (λ t. All (λ b. t ≡ happened b) rows) rows v
        (All-imp _ _ (unique_chronological rows)
          (λ a same. transfer (λ t. happened a ≡ t) rows v same) h)

  given_of_unique :
      (x : Observation) (rows : List Observation)
      → Any (λ r. r ≡ x) (unique_chronological rows)
      → Any (λ r. r ≡ x) rows
  given_of_unique x rows any =
      Any-All (λ z. Any (λ r. r ≡ z) rows) x (unique_chronological rows) any
        (unique_chronological-subset rows)

  IsBeforeNewest-unique :
      (x : Observation) (rows : List Observation)
      → All IsDated rows
      → IsBeforeNewest x (unique_chronological rows)
      → IsBeforeNewest x rows
  IsBeforeNewest-unique x rows v best = record {
    newest = best.newest;
    given = given_of_unique best.newest rows best.given;
    earlier = best.earlier;
    others =
        transfer (λ t. (t ≡ happened best.newest) ⊎ NotLater t (happened x)) rows v best.others;
  }

  module _ (W : Type 0) ⦃n : Number W⦄ where
    -- If both dates of each row of an instrument's history can be read, the card of an observation of it
    -- shows no change where all the rows have one event time, and otherwise the change in percent
    -- against a row of the history that is earlier than the newest row, and than which every row that is not as
    -- new as the newest is no later.
    pub delta_for-cases :
        (item : Observation) (groups : Object (List Observation)) {rows : List Observation}
        → rows_or_throw item.instrument_code groups ≡ returns rows
        → All IsDated rows
        → ((delta_for W item groups ≡ returns none) × AreSimultaneous rows)
          ⊎ ((x : Observation) × (delta_for W item groups
                ≡ returns (some (percent_change (n.read item.price) (n.read x.price))))
              × Any (λ r. r ≡ x) rows
              × IsBeforeNewest x rows)
    unfolding delta_for
    delta_for-cases item groups {rows = rows} found v =
        elim (previous-Found (unique_chronological rows) (unique_chronological-All IsDated rows v)
          (unique_chronological-Ordered rows v)) [
            | inl (alone, same) ↦ inl (rw (found, alone) refl, AreSimultaneous-unique rows v same)
            | inr (x, second, there, best) ↦ inr (
              x,
              rw (found, second) refl,
              given_of_unique x rows there,
              IsBeforeNewest-unique x rows v best,
            )
          ]
