-- ===== src/Js/KeyMap/Laws.antt =====
-- Facts about `Map`: what a key holds after `set`, distinct keys, and `has` as membership.
use push_and_pray.Prelude.{◌≡◌, refl, inl, inr, ◌↔◌, true, some, List, [], ◌∷◌, Bool-cases, Any}
use push_and_pray.Js.Eq.{Eq, ◌===◌, ===_refl, ===→eq}
use push_and_pray.Js.KeyMap.{KeyMap, set, get, has}

module _ {ℓ κ} {K : Type ℓ} {V : Type κ} ⦃e : Eq K⦄ where
  -- A key holds what was set last.
  pub get-set_self : (k : K) (v : V) (m : KeyMap K V) → get k (set k v m) ≡ some v
  unfolding get set
  get-set_self k v [] = rw (===_refl k)
  get-set_self k v ((j, w) ∷ m) = elim (Bool-cases (j === k)) [
    | inl h ↦ rw (h, ===_refl k)
    | inr h ↦ rw (h, h) (get-set_self k v m)
  ]

module _ {K : Type 0} ⦃e : Eq K⦄ where
  -- `Set.has` decides membership.
  pub has_iff : (xs : List K) (x : K) → (has xs x ≡ true) ↔ Any (λ y. y ≡ x) xs
  unfolding has
  has_iff [] x = (λ h. cc, λ h. elim h [ ])
  has_iff (y ∷ ys) x = elim (Bool-cases (y === x)) [
    | inl h ↦ rw h (λ _. inl (===→eq y x h), λ _. refl)
    | inr h ↦ rw h (
      λ t. inr ((has_iff ys x).0 t),
      λ any. elim any [
        | inl same ↦ let t : (y === x) ≡ true = (e.beq_iff y x).1 same in cc
        | inr later ↦ (has_iff ys x).1 later
      ],
    )
  ]
