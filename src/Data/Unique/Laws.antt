-- ===== src/Data/Unique/Laws.antt =====
-- What `uniqueChronological` returns, where every date of its input can be read.
use push_and_pray.Prelude.{
  ◌≡◌, refl, sym, ◌≢◌, ◌∙◌, inl, inr, none, some, [], ◌∷◌, arith, Bool-cases, All, Any, Ordered,
  All-imp,
}
use push_and_pray.Prelude.Int.{ℤ, pos, ◌<ℤ◌, ◌≤ℤ◌, ltb_ℤ}
use push_and_pray.Js.Eq.{Instant, instant_key, ◌===◌, ===→eq, ===_refl}
use push_and_pray.Js.Sort.{is_positive}
use push_and_pray.Js.KeyMap.{KeyMap, set, values}
use push_and_pray.Types.{Observation}
use push_and_pray.Platform.{Dates}
use push_and_pray.Data.Unique.{minus, scheduled, happened}

-- The order of instants that can be read.
abbrev pub Earlier : Instant → Instant → Type 0
Earlier (some a) (some b) = a <ℤ b
Earlier _ _ = ⊥

abbrev pub NotLater : Instant → Instant → Type 0
NotLater (some a) (some b) = a ≤ℤ b
NotLater _ _ = ⊥

abbrev pub IsValidInstant : Instant → Type 0
IsValidInstant none = ⊥
IsValidInstant (some a) = Unit

abbrev pub milliseconds : Instant → ℤ
milliseconds none = pos 0
milliseconds (some a) = a

pub minus-agree :
    (a b : Instant)
    → IsValidInstant a
    → IsValidInstant b
    → is_positive (minus a b) ≡ ltb_ℤ (milliseconds b) (milliseconds a)
unfolding minus
minus-agree none b v w = elim v [ ]
minus-agree (some a) none v w = elim w [ ]
minus-agree (some a) (some b) v w = ground arith

pub NotLater-refl : (a : Instant) → IsValidInstant a → NotLater a a
NotLater-refl none v = v
NotLater-refl (some a) v = omega arith

pub NotLater-of_le :
    (a b : Instant)
    → IsValidInstant a
    → IsValidInstant b
    → milliseconds a ≤ℤ milliseconds b
    → NotLater a b
NotLater-of_le none b v w h = v
NotLater-of_le (some a) none v w h = w
NotLater-of_le (some a) (some b) v w h = h

pub Earlier-of_le :
    (a b : Instant)
    → IsValidInstant a
    → IsValidInstant b
    → milliseconds a ≤ℤ milliseconds b
    → a ≢ b
    → Earlier a b
Earlier-of_le none b v w h ne = v
Earlier-of_le (some a) none v w h ne = w
Earlier-of_le (some a) (some b) v w h ne = ground (arith, ne)

module _ ⦃d : Dates⦄ where
  -- Both dates of an observation can be read.
  abbrev pub IsDated : Observation → Type 0
  IsDated x = IsValidInstant (scheduled x) × IsValidInstant (happened x)

  -- `y` stands for `x`: the same event, collected no earlier.
  abbrev pub Replaces : Observation → Observation → Type 0
  Replaces x y = (happened y ≡ happened x) × NotLater (scheduled x) (scheduled y)

  abbrev pub Keyed : KeyMap Instant Observation → Type 0
  Keyed = All (λ entry. entry.0 ≡ happened entry.1)

  pub set-Keyed :
      (x : Observation) (m : KeyMap Instant Observation) → Keyed m → Keyed (set (happened x) x m)
  unfolding set
  set-Keyed x [] h = (refl, tt)
  set-Keyed x ((j, w) ∷ m) h = elim (Bool-cases (j === happened x)) [
    | inl e ↦ rw e (refl, h.1)
    | inr e ↦ rw e (h.0, set-Keyed x m h.1)
  ]

  pub set-All :
      (P : Observation → Type 0) (x : Observation) (m : KeyMap Instant Observation)
      → P x
      → All P (values m)
      → All P (values (set (happened x) x m))
  unfolding set values
  set-All P x [] p h = (p, tt)
  set-All P x ((j, w) ∷ m) p h = elim (Bool-cases (j === happened x)) [
    | inl e ↦ rw e (p, h.1)
    | inr e ↦ rw e (h.0, set-All P x m p h.1)
  ]

  pub set-Any :
      (P : Observation → Type 0) (x : Observation) (m : KeyMap Instant Observation)
      → P x
      → Any P (values (set (happened x) x m))
  unfolding set values
  set-Any P x [] p = inl p
  set-Any P x ((j, w) ∷ m) p = elim (Bool-cases (j === happened x)) [
    | inl e ↦ rw e (inl p)
    | inr e ↦ rw e (inr (set-Any P x m p))
  ]

  -- An entry that is replaced gives way to one that the predicate holds of too.
  pub set-Any_keep :
      (P : Observation → Type 0) (x : Observation) (m : KeyMap Instant Observation)
      → ((y : Observation) → happened y ≡ happened x → P y → P x)
      → Keyed m
      → Any P (values m)
      → Any P (values (set (happened x) x m))
  unfolding set values
  set-Any_keep P x [] f k h = elim h [ ]
  set-Any_keep P x ((j, w) ∷ m) f k (inl h) = elim (Bool-cases (j === happened x)) [
    | inl e ↦ rw e (inl (f w (sym k.0 ∙ ===→eq j (happened x) e) h))
    | inr e ↦ rw e (inl h)
  ]
  set-Any_keep P x ((j, w) ∷ m) f k (inr h) = elim (Bool-cases (j === happened x)) [
    | inl e ↦ rw e (inr h)
    | inr e ↦ rw e (inr (set-Any_keep P x m f k.1 h))
  ]

  abbrev pub Apart : Observation → Observation → Type 0
  Apart x y = happened x ≢ happened y

  pub set-Apart :
      (x : Observation) (m : KeyMap Instant Observation)
      → Keyed m
      → Ordered Apart (values m)
      → Ordered Apart (values (set (happened x) x m))
  unfolding set values
  set-Apart x [] k h = (tt, tt)
  set-Apart x ((j, w) ∷ m) k h = elim (Bool-cases (j === happened x)) [
    | inl e ↦ rw e (
      All-imp (Apart w) (Apart x) (values m)
          (λ y apart same. apart (sym k.0 ∙ ===→eq j (happened x) e ∙ same)) h.0,
      h.1,
    )
    | inr e ↦
        let far : Apart w x = λ same. cc (===_refl (happened x), rw (k.0 ∙ same) at e) in
        rw e (set-All (Apart w) x m far h.0, set-Apart x m k.1 h.1)
  ]
