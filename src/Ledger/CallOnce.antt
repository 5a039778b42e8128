-- ===== src/Ledger/CallOnce.antt =====
-- `call_once` as a program that the process may not survive: each call of the ledger, of the tool
-- and of its `verify` takes one step, and the process dies where the steps run out.
use agent_ship.Prelude.{ℕ, zero, suc, String, Bool, Option, none, some, List, ◌∷◌, if◌then◌else◌}
use agent_ship.Ledger.Entry.{LedgerEntry, pending, done, IdempotencyLedger}

-- How a call of the tool, or of its `verify`, ends.
pub data Reply (V : Type 0) : Type 0 where
  answer : V → Reply V
  failure : Reply V

-- The tool, as one attempt meets it: what a call and what a `verify` would answer.
pub record Tool (V : Type 0) : Type 0 where
  pub call_reply : Reply V
  pub verify_reply : Reply V

-- How an attempt ends: it returns, an exception leaves it, or the process dies inside it.
pub data Outcome (A : Type 0) : Type 0 where
  returned : A → Outcome A
  raised : Outcome A
  died : Outcome A

-- What outlives an attempt is the ledger and the side effects, `fired`, by the key of their call.
-- `steps` is how far the process still gets.
pub record World (Ledger : Type 0) : Type 0 where
  pub ledger : Ledger
  pub fired : List String
  pub steps : ℕ

abbrev Exec : Type 0 → Type 0 → Type 0
Exec Ledger A = World Ledger → Outcome A × World Ledger

module _ {Ledger : Type 0} where
  abbrev pure : {A : Type 0} → A → Exec Ledger A
  pure a w = (returned a, w)

  abbrev continue :
      {A B : Type 0} → Outcome A → (A → Exec Ledger B) → World Ledger → Outcome B × World Ledger
  continue (returned a) f w = f a w
  continue raised f w = (raised, w)
  continue died f w = (died, w)

  infixl 5 ◌>>=◌ ◌>>◌
  abbrev pub ◌>>=◌ : {A B : Type 0} → Exec Ledger A → (A → Exec Ledger B) → Exec Ledger B
  ◌>>=◌ m f w = let (r, w') = m w in continue r f w'

  abbrev pub ◌>>◌ : {A B : Type 0} → Exec Ledger A → Exec Ledger B → Exec Ledger B
  m >> k = m >>= λ _. k

  -- One step: the process dies before it, or it happens whole.
  abbrev on_steps : {A : Type 0} → ℕ → Exec Ledger A → Exec Ledger A
  on_steps zero m w = (died, w)
  on_steps (suc n) m w = m (record w { steps = n })

  abbrev pub step : {A : Type 0} → Exec Ledger A → Exec Ledger A
  step m w = on_steps w.steps m w

  abbrev pub reply : {V : Type 0} → Reply V → Exec Ledger V
  reply (answer v) w = (returned v, w)
  reply failure w = (raised, w)

module _ {V : Type 0} (L : IdempotencyLedger V) where
  read : String → Exec L.Ledger (Option (LedgerEntry V))
  read key = step (λ w. (returned (L.lookup w.ledger key), w))

  write : String → LedgerEntry V → Exec L.Ledger (Unit {0})
  write key entry =
      step (λ w. (returned tt, record w { ledger = L.record_entry w.ledger key entry }))

  -- The side effect happens whether the call then returns or raises.
  fire : String → Tool V → Exec L.Ledger V
  fire key fn = step (λ w. reply fn.call_reply (record w { fired = key ∷ w.fired }))

  verify : Tool V → Exec L.Ledger V
  verify fn = step (reply fn.verify_reply)

  -- the branch of `call_once` on the entry that it found
  unfoldable pub settle : String → Tool V → Bool → Option (LedgerEntry V) → Exec L.Ledger V
  unfolding write fire verify
  settle key fn idempotent (some (done result)) = pure result
  settle key fn idempotent (some pending) = do
    verified ← verify fn
    write key (done verified)
    pure verified
  settle key fn idempotent none = do
    if idempotent then pure tt else write key pending
    result ← fire key fn
    write key (done result)
    pure result

  unfoldable pub call_once : String → Tool V → Bool → Exec L.Ledger V
  unfolding read settle
  call_once key fn idempotent = do existing ← read key; settle key fn idempotent existing
