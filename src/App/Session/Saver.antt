-- ===== src/App/Session/Saver.antt =====
-- What saving promises, without timers and requests: a draft that the user edits, and the versions of
-- it that were sent, the last one first.
use push_and_pray.Prelude.{◌≡◌, refl, Bool, true, false, List, [], ◌∷◌, arith}
use push_and_pray.Types.{Preferences}

pub record Draft : Type 0 where
  pub current : Preferences
  -- A first version has been chosen, so that versions may be sent.
  pub is_started : Bool
  pub is_open : Bool
  pub is_unsent : Bool
  pub sent : List Preferences

-- The moves of a draft.
pub data Move (d : Draft) : Draft → Type 0 where
  rest : Move d d
  -- A change before the start is not sent.
  edit : (p : Preferences) → d.is_started ≡ false → Move d (record d { current = p })
  start :
      (p : Preferences)
      → d.is_started ≡ false
      → Move d (record d { current = p; is_started = true; is_unsent = true })
  change :
      (p : Preferences) → d.is_started ≡ true → Move d (record d { current = p; is_unsent = true })
  -- What is sent is the current version, once.
  send : d.is_unsent ≡ true → Move d (record d { is_unsent = false; sent = d.current ∷ d.sent })
  close : Move d (record d { is_open = false; is_unsent = false })

pub data Moves (d : Draft) : Draft → Type 0 where
  here : Moves d d
  next : {e f : Draft} → Moves d e → Move e f → Moves d f

-- Nothing is sent before the start; after it, a draft without an unsent change was sent as it is.
pub record IsFaithful (d : Draft) : Type 0 where
  pub before : d.is_started ≡ false → (d.is_unsent ≡ false) × (d.sent ≡ [])
  pub after :
      d.is_started ≡ true
      → d.is_open ≡ true
      → d.is_unsent ≡ false
      → (older : List Preferences) × (d.sent ≡ d.current ∷ older)

Move-IsFaithful : {d e : Draft} → IsFaithful d → Move d e → IsFaithful e
Move-IsFaithful h rest = h
Move-IsFaithful h (edit p early) = ground arith
Move-IsFaithful h (start p early) = ground arith
Move-IsFaithful h (change p started) = ground arith
Move-IsFaithful {d} h (send unsent) = record {
  before = λ early. let (quiet, _) = h.before early in cc;
  after = λ s o u. (d.sent, refl);
}
Move-IsFaithful h close = record {
  before = λ early. (refl, (h.before early).1);
  after = λ s o u. cc;
}

pub Moves-IsFaithful : {d e : Draft} → IsFaithful d → Moves d e → IsFaithful e
Moves-IsFaithful h here = h
Moves-IsFaithful h (next ms m) = Move-IsFaithful (Moves-IsFaithful h ms) m

pub Moves-trans : {d e f : Draft} → Moves d e → Moves e f → Moves d f
Moves-trans ms here = ms
Moves-trans ms (next ns n) = next (Moves-trans ms ns) n
