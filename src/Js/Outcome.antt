-- ===== src/Js/Outcome.antt =====
-- A computation that may throw.
use push_and_pray.Prelude.{◌≡◌, refl, subst}

pub data Outcome {ℓ} (A : Type ℓ) : Type ℓ where
  returns : A → Outcome A
  throws : Outcome A

pub returns-inj {ℓ} : {A : Type ℓ} {a b : A} → returns a ≡ returns b → a ≡ b
returns-inj h = cc

infixl 5 ◌>>=◌
abbrev pub ◌>>=◌ {ℓ κ} : {A : Type ℓ} {B : Type κ} → Outcome A → (A → Outcome B) → Outcome B
returns a >>= f = f a
throws >>= f = throws

-- A computation that returns has returned from its first part.
pub >>=-eq-returns {ℓ κ} :
    {A : Type ℓ} {B : Type κ} (m : Outcome A) (f : A → Outcome B) {b : B}
    → (m >>= f) ≡ returns b
    → (a : A) × (m ≡ returns a) × (f a ≡ returns b)
>>=-eq-returns (returns a) f h = (a, refl, h)
>>=-eq-returns throws f h = cc

-- What holds of the result, if there is one.
abbrev pub Ensures {ℓ} : {A : Type ℓ} → (A → Type 0) → Outcome A → Type 0
Ensures P (returns a) = P a
Ensures P throws = Unit

pub Ensures->>= {ℓ κ} :
    {A : Type ℓ} {B : Type κ} (P : A → Type 0) (Q : B → Type 0) (m : Outcome A) (f : A → Outcome B)
    → Ensures P m
    → ((a : A) → P a → Ensures Q (f a))
    → Ensures Q (m >>= f)
Ensures->>= P Q (returns a) f p q = q a p
Ensures->>= P Q throws f p q = tt

-- Nothing is asked of the first part.
pub Ensures-rest {ℓ κ} :
    {A : Type ℓ} {B : Type κ} (Q : B → Type 0) (m : Outcome A) (f : A → Outcome B)
    → ((a : A) → Ensures Q (f a))
    → Ensures Q (m >>= f)
Ensures-rest Q (returns a) f q = q a
Ensures-rest Q throws f q = tt

pub Ensures-returns {ℓ} :
    {A : Type ℓ} (P : A → Type 0) (m : Outcome A) {a : A} → Ensures P m → m ≡ returns a → P a
Ensures-returns P m p h = subst (Ensures P) h p

-- The computation does not throw.
abbrev pub Returns {ℓ} : {A : Type ℓ} → Outcome A → Type ℓ
Returns {A = A} m = (a : A) × (m ≡ returns a)

pub Returns->>= {ℓ κ} :
    {A : Type ℓ} {B : Type κ} (m : Outcome A) (f : A → Outcome B)
    → Returns m
    → ((a : A) → Returns (f a))
    → Returns (m >>= f)
Returns->>= (returns a) f h next = next a
Returns->>= throws f h next = cc h.1

-- A computation throws if its first part does, or else what comes after it.
pub >>=-throws {ℓ κ} :
    {A : Type ℓ} {B : Type κ} (m : Outcome A) (f : A → Outcome B) → m ≡ throws → (m >>= f) ≡ throws
>>=-throws m f h = rw h refl

pub >>=-rest_throws {ℓ κ} :
    {A : Type ℓ} {B : Type κ} (m : Outcome A) (f : A → Outcome B)
    → ((a : A) → f a ≡ throws)
    → (m >>= f) ≡ throws
>>=-rest_throws (returns a) f h = h a
>>=-rest_throws throws f h = refl
