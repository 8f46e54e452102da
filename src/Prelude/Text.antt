-- ===== src/Prelude/Text.antt =====
-- Texts as the code units of a JavaScript string. Every literal of the program lies in the basic
-- plane, where a character is one unit.
use Prim.Native.Char.{code}
use Prim.Native.Nat.{ℕ}
use Prim.Native.String.{String}
use mathlib.Core.Path.{◌≡◌, refl, sym, ap, ◌∙◌}
use mathlib.Core.Bool.{Bool, true, false, ◌&&◌, ◌||◌}
use mathlib.Core.Logic.{◌↔◌, inl, inr}
use mathlib.Core.Option.{Option, none, some}
use mathlib.Core.List.{List, [], ◌∷◌, ◌++◌}
use native.Mathlib.Omega.{arith}
use push_and_pray.Prelude.Tests.{Bool-cases, Option-cases, ◌==◌, if◌then◌else◌}

abbrev pub Text : Type 0
Text = List ℕ

-- The units of a literal.
abbrev pub codes : String → Text
codes String.[] = []
codes (String.◌∷◌ c s) = code c ∷ codes s

-- `===` on strings.
unfoldable pub text_eq : Text → Text → Bool
text_eq [] [] = true
text_eq (c ∷ s) (d ∷ t) = (c == d) && text_eq s t
text_eq _ _ = false

text_eq→eq : (s t : Text) → text_eq s t ≡ true → s ≡ t
unfolding text_eq
text_eq→eq [] [] h = refl
text_eq→eq [] (d ∷ t) h = cc
text_eq→eq (c ∷ s) [] h = cc
text_eq→eq (c ∷ s) (d ∷ t) h = ground (arith, text_eq→eq s t)

pub text_eq_refl : (s : Text) → text_eq s s ≡ true
unfolding text_eq
text_eq_refl [] = refl
text_eq_refl (c ∷ s) = ground (arith, text_eq_refl s)

pub text_eq_iff : (s t : Text) → (text_eq s t ≡ true) ↔ (s ≡ t)
text_eq_iff s t = (text_eq→eq s t, λ e. rw e (text_eq_refl t))

-- The empty string is the falsy one.
unfoldable pub is_empty : Text → Bool
is_empty [] = true
is_empty (_ ∷ _) = false

-- The rest of a text behind a prefix, with the prefix's units compared by `same`.
unfoldable pub strip_prefix : (ℕ → ℕ → Bool) → Text → Text → Option Text
strip_prefix same [] s = some s
strip_prefix same (p ∷ ps) [] = none
strip_prefix same (p ∷ ps) (c ∷ s) = if same p c then strip_prefix same ps s else none

abbrev starts : Text → Text → Bool
starts needle s = elim (strip_prefix ◌==◌ needle s) [ none ↦ false | some _ ↦ true ]

-- `s.includes(needle)`.
unfoldable pub includes : Text → Text → Bool
unfolding strip_prefix
includes needle [] = starts needle []
includes needle (c ∷ s) = starts needle (c ∷ s) || includes needle s

-- `s.replace(needle, by)` at a string: the first occurrence. `by` holds no `$`.
unfoldable pub replace_first : Text → Text → Text → Text
unfolding strip_prefix
replace_first needle by [] = elim (strip_prefix ◌==◌ needle []) [
  | none ↦ []
  | some rest ↦ by ++ rest
]
replace_first needle by (c ∷ s) = elim (strip_prefix ◌==◌ needle (c ∷ s)) [
  | none ↦ c ∷ replace_first needle by s
  | some rest ↦ by ++ rest
]

-- `texts.join(glue)`.
unfoldable pub join : Text → List Text → Text
join glue [] = []
join glue (t ∷ []) = t
join glue (t ∷ u ∷ ts) = t ++ (glue ++ join glue (u ∷ ts))

strip_prefix-append : (needle rest : Text) → strip_prefix ◌==◌ needle (needle ++ rest) ≡ some rest
unfolding strip_prefix
strip_prefix-append [] rest = refl
strip_prefix-append (c ∷ cs) rest = ground (arith, strip_prefix-append cs rest)

-- A text holds what it was put around.
pub includes-append :
    (before needle behind : Text) → includes needle (before ++ (needle ++ behind)) ≡ true
unfolding includes
includes-append [] [] [] = refl
includes-append [] [] (c ∷ s) = refl
includes-append [] (c ∷ cs) behind = ground (arith, strip_prefix-append (c ∷ cs) behind)
includes-append (b ∷ bs) needle behind = ground (arith, includes-append bs needle behind)

strip_prefix-some :
    (needle s rest : Text) → strip_prefix ◌==◌ needle s ≡ some rest → s ≡ needle ++ rest
unfolding strip_prefix
strip_prefix-some [] s rest h = cc
strip_prefix-some (c ∷ cs) [] rest h = cc
strip_prefix-some (c ∷ cs) (d ∷ s) rest h = ground (arith, strip_prefix-some cs s rest)

starts-parts : (needle s : Text) → starts needle s ≡ true → (behind : Text) × (s ≡ needle ++ behind)
starts-parts needle s h = elim (Option-cases (strip_prefix ◌==◌ needle s)) [
  | inl e ↦ absurd (false-ne-true (sym (rw (e, starts) refl) ∙ h))
  | inr (rest, e) ↦ (rest, strip_prefix-some needle s rest e)
]
  where
    false-ne-true : ◌≡◌ {A = Bool} false true → ⊥
    false-ne-true k = cc

-- A text that is found stands between two parts.
pub includes-parts :
    (needle s : Text)
    → includes needle s ≡ true
    → (before : Text) × (behind : Text) × (s ≡ before ++ (needle ++ behind))
unfolding includes
includes-parts needle [] h = let (behind, e) = starts-parts needle [] h in ([], behind, e)
includes-parts needle (c ∷ s) h = elim (Bool-cases (starts needle (c ∷ s))) [
  | inl e ↦ let (behind, k) = starts-parts needle (c ∷ s) e in ([], behind, k)
  | inr e ↦
      let later : includes needle s ≡ true = ground arith in
      let (before, behind, k) = includes-parts needle s later in (c ∷ before, behind, ap (c ∷◌) k)
]
