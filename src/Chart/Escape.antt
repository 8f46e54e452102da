-- ===== src/Chart/Escape.antt =====
-- `escapeHtml`.
use push_and_pray.Prelude.{
  ℕ, zero, suc, ◌≡◌, refl, ◌≢◌, ap, ◌∙◌, Bool, true, false, Option, none, some, [], ◌∷◌, ◌++◌,
  arith, ◌==◌, if◌then◌else◌, inl, inr, All, Any, ◌⊎◌, subst, append_assoc, All-append,
}
use push_and_pray.Prelude.Text.{Text, codes}

-- The entity of a character of the class [&<>'"], and any other character itself.
unfoldable pub escape_unit : ℕ → Text
escape_unit c =
    if c == b'&'
    then codes "&amp;"
    else if c == b'<'
    then codes "&lt;"
    else if c == b'>'
    then codes "&gt;"
    else if c == 39
    then codes "&#39;"
    else if c == 34
    then codes "&quot;"
    else c ∷ []

unfoldable pub escape_html : Text → Text
unfolding escape_unit
escape_html [] = []
escape_html (c ∷ s) = escape_unit c ++ escape_html s

-- `String(value ?? "")` of a text that may be missing.
unfoldable pub escape_optional : Option Text → Text
unfolding escape_html
escape_optional none = escape_html []
escape_optional (some s) = escape_html s

-- The characters by which a text could leave its place in the markup.
abbrev pub IsInert : ℕ → Type 0
IsInert c = ((c ≢ b'<') × (c ≢ b'>')) × ((c ≢ 39) × (c ≢ 34))

escape_unit-IsInert : (c : ℕ) → All IsInert (escape_unit c)
unfolding escape_unit
escape_unit-IsInert c = ground arith

-- The result of `escapeHtml` has no angle bracket and no quote, whatever the text is.
pub escape_html-IsInert : (s : Text) → All IsInert (escape_html s)
unfolding escape_html
escape_html-IsInert [] = tt
escape_html-IsInert (c ∷ s) =
    All-append IsInert (escape_unit c) (escape_html s) (escape_unit-IsInert c)
      (escape_html-IsInert s)

abbrev begins : Text → Text → Bool
begins [] s = true
begins (p ∷ ps) [] = false
begins (p ∷ ps) (c ∷ s) = if p == c then begins ps s else false

-- The character of the entity whose name begins here, and the units of the name.
abbrev entity : Text → Option (ℕ × ℕ)
entity s =
    if begins (codes "amp;") s
    then some (b'&', 4)
    else if begins (codes "lt;") s
    then some (b'<', 3)
    else if begins (codes "gt;") s
    then some (b'>', 3)
    else if begins (codes "#39;") s
    then some (39, 4)
    else if begins (codes "quot;") s
    then some (34, 5)
    else none

-- What ends the part of the markup that is being read: the `<` of the tag behind the text of an element,
-- the quotes behind the value of an attribute, and the `>` of a tag.
pub data Delimiter : Type 0 where
  less greater apostrophe quote : Delimiter

abbrev pub unit_of : Delimiter → ℕ
unit_of less = b'<'
unit_of greater = b'>'
unit_of apostrophe = 39
unit_of quote = 34

abbrev put : ℕ → Text × Text → Text × Text
put c (shown, rest) = (c ∷ shown, rest)

-- How HTML is read up to the first delimiter: the text with its entities decoded, and what is left. Of the
-- entities only the five that `escapeHtml` writes are known here. `skip` units of an entity's name are
-- to be passed over.
pub read_until : Delimiter → ℕ → Text → Text × Text
read_until end skip [] = ([], [])
read_until end (suc skip) (c ∷ s) = read_until end skip s
read_until end zero (c ∷ s) =
    if c == unit_of end
    then ([], c ∷ s)
    else if c == b'&'
    then elim (entity s) [
      | none ↦ put c (read_until end 0 s)
      | some (d, name) ↦ put d (read_until end name s)
    ]
    else put c (read_until end 0 s)

-- The units that `escapeHtml` replaces.
abbrev specials : Text
specials = codes "&<>'\""

read_until-special :
    (end : Delimiter) (rest : Text)
    → All (λ c. read_until end 0 (escape_unit c ++ rest) ≡ put c (read_until end 0 rest)) specials
unfolding read_until escape_unit
read_until-special less rest = (refl, (refl, (refl, (refl, (refl, tt)))))
read_until-special greater rest = (refl, (refl, (refl, (refl, (refl, tt)))))
read_until-special apostrophe rest = (refl, (refl, (refl, (refl, (refl, tt)))))
read_until-special quote rest = (refl, (refl, (refl, (refl, (refl, tt)))))

abbrev IsSpecial : ℕ → Type 0
IsSpecial c = Any (λ d. d ≡ c) specials

IsSpecial-cases : (c : ℕ) → IsSpecial c ⊎ All (λ d. d ≢ c) specials
IsSpecial-cases c = ground arith

special-at :
    (end : Delimiter) (c : ℕ) (rest : Text) (ds : Text)
    → Any (λ d. d ≡ c) ds
    → All (λ d. read_until end 0 (escape_unit d ++ rest) ≡ put d (read_until end 0 rest)) ds
    → read_until end 0 (escape_unit c ++ rest) ≡ put c (read_until end 0 rest)
special-at end c rest [] any h = elim any [ ]
special-at end c rest (d ∷ ds) (inl same) h =
    subst (λ x. read_until end 0 (escape_unit x ++ rest) ≡ put x (read_until end 0 rest)) same h.0
special-at end c rest (d ∷ ds) (inr any) h = special-at end c rest ds any h.1

read_until-ordinary :
    (end : Delimiter) (c : ℕ) (rest : Text)
    → All (λ d. d ≢ c) specials
    → read_until end 0 (escape_unit c ++ rest) ≡ put c (read_until end 0 rest)
unfolding read_until escape_unit
read_until-ordinary less c rest h = ground arith
read_until-ordinary greater c rest h = ground arith
read_until-ordinary apostrophe c rest h = ground arith
read_until-ordinary quote c rest h = ground arith

read_until-escape_unit :
    (end : Delimiter) (c : ℕ) (rest : Text)
    → read_until end 0 (escape_unit c ++ rest) ≡ put c (read_until end 0 rest)
read_until-escape_unit end c rest = elim (IsSpecial-cases c) [
  | inl special ↦ special-at end c rest specials special (read_until-special end rest)
  | inr ordinary ↦ read_until-ordinary end c rest ordinary
]

-- Whichever of the delimiters < > ' and " stands behind the result of `escapeHtml`, reading up to the first
-- such delimiter, with the entities decoded, gives back exactly the text that was escaped, and stops
-- at the delimiter behind it: no character of the text ends the reading early or is changed.
pub read_until-escape_html :
    (end : Delimiter) (s rest : Text)
    → read_until end 0 (escape_html s ++ (unit_of end ∷ rest)) ≡ (s, unit_of end ∷ rest)
unfolding escape_html
read_until-escape_html less [] rest = unfold read_until in refl
read_until-escape_html greater [] rest = unfold read_until in refl
read_until-escape_html apostrophe [] rest = unfold read_until in refl
read_until-escape_html quote [] rest = unfold read_until in refl
read_until-escape_html end (c ∷ s) rest =
    ap (read_until end 0) (append_assoc (escape_unit c) (escape_html s) (unit_of end ∷ rest))
    ∙ read_until-escape_unit end c (escape_html s ++ (unit_of end ∷ rest))
    ∙ ap (put c) (read_until-escape_html end s rest)
