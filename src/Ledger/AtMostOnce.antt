-- ===== src/Ledger/AtMostOnce.antt =====
-- How often attempts at `call_once` fire a side effect, with crashes and failures between.
use agent_ship.Prelude.{
  ℕ, zero, suc, ◌≤◌, String, ◌≡◌, refl, Bool, true, false, Option, none, some, List, [], ◌∷◌, arith,
  ◌==◌, eq_iff, if◌then◌else◌, All,
}
use agent_ship.Ledger.Entry.{LedgerEntry, pending, done, IdempotencyLedger}
use agent_ship.Ledger.CallOnce.{Tool, World, call_once, settle}

-- How often a key's side effect has happened.
abbrev pub count : String → List String → ℕ
count k [] = 0
count k (j ∷ fired) = if j == k then suc (count k fired) else count k fired

abbrev pub entries : {V : Type 0} → Option (LedgerEntry V) → ℕ
entries none = 0
entries (some _) = 1

-- One attempt at a tool call: the process that makes it lives for `steps` steps.
pub record Attempt (V : Type 0) : Type 0 where
  pub key : String
  pub fn : Tool V
  pub idempotent : Bool
  pub steps : ℕ

module _ {V : Type 0} (L : IdempotencyLedger V) where
  -- The world that the attempt leaves to the next process.
  unfoldable pub attempt : World L.Ledger → Attempt V → World L.Ledger
  attempt w a = (call_once L a.key a.fn a.idempotent (record w { steps = a.steps })).1

  unfoldable pub attempts : World L.Ledger → List (Attempt V) → World L.Ledger
  unfolding attempt
  attempts w [] = w
  attempts w (a ∷ rest) = attempts (attempt w a) rest

  -- A side effect that happened has left an entry, and happened once.
  pub record IsGuarded (k : String) (w : World L.Ledger) : Type 0 where
    pub once : count k w.fired ≤ 1
    pub logged : L.lookup w.ledger k ≡ none → count k w.fired ≡ 0

  settle-IsGuarded :
      (k key : String) (fn : Tool V) (idempotent : Bool) (o : Option (LedgerEntry V))
      (w : World L.Ledger)
      → L.lookup w.ledger key ≡ o
      → (key ≡ k → idempotent ≡ false)
      → IsGuarded k w
      → IsGuarded k (settle L key fn idempotent o w).1
  unfolding settle
  settle-IsGuarded k key fn idempotent (some (done r)) w e wr g = g
  settle-IsGuarded k key fn idempotent (some pending) w e wr g =
      grind (arith, L.lookup-record_entry, eq_iff)
  settle-IsGuarded k key fn true none w e wr g = grind (arith, L.lookup-record_entry, eq_iff)
  settle-IsGuarded k key fn false none w e wr g = grind (arith, L.lookup-record_entry, eq_iff)

  pub attempt-IsGuarded :
      (k : String) (w : World L.Ledger) (a : Attempt V)
      → (a.key ≡ k → a.idempotent ≡ false)
      → IsGuarded k w
      → IsGuarded k (attempt w a)
  unfolding attempt call_once
  attempt-IsGuarded k w a wr g = by_steps a.steps
    where
      by_steps :
          (n : ℕ) → IsGuarded k (call_once L a.key a.fn a.idempotent (record w { steps = n })).1
      by_steps zero = record { once = g.once; logged = g.logged }
      by_steps (suc n) =
          settle-IsGuarded k a.key a.fn a.idempotent (L.lookup w.ledger a.key)
            (record w { steps = n }) refl wr (record { once = g.once; logged = g.logged })

  attempts-IsGuarded :
      (k : String) (w : World L.Ledger) (as' : List (Attempt V))
      → All (λ a. a.key ≡ k → a.idempotent ≡ false) as'
      → IsGuarded k w
      → IsGuarded k (attempts w as')
  unfolding attempts
  attempts-IsGuarded k w [] wr g = g
  attempts-IsGuarded k w (a ∷ rest) wr g =
      attempts-IsGuarded k (attempt w a) rest wr.1 (attempt-IsGuarded k w a wr.0 g)

  settle-count_other :
      (k key : String) (fn : Tool V) (o : Option (LedgerEntry V)) (w : World L.Ledger)
      → (key == k) ≡ false
      → count k (settle L key fn false o w).1.fired ≡ count k w.fired
  unfolding settle
  settle-count_other k key fn (some (done r)) w other = refl
  settle-count_other k key fn (some pending) w other = grind arith
  settle-count_other k key fn none w other = grind arith

  -- An attempt at one key has no side effect at another.
  pub attempt-count_other :
      (k : String) (w : World L.Ledger) (key : String) (fn : Tool V) (n : ℕ)
      → (key == k) ≡ false
      → count k (attempt w (record { key = key; fn = fn; idempotent = false; steps = n })).fired
        ≡ count k w.fired
  unfolding attempt call_once
  attempt-count_other k w key fn zero other = refl
  attempt-count_other k w key fn (suc n) other =
      settle-count_other k key fn (L.lookup w.ledger key) (record w { steps = n }) other

  -- Take a key that the ledger has no entry for and whose side effect has not happened. Whatever
  -- attempts follow, at this key and at others, each cut short anywhere or failing, if those at this
  -- key are not idempotent then its side effect happens at most once, and not at all unless the
  -- ledger has an entry for it.
  pub attempts_fire_at_most_once :
      (k : String) (w : World L.Ledger) (calls : List (Attempt V))
      → L.lookup w.ledger k ≡ none
      → count k w.fired ≡ 0
      → All (λ a. a.key ≡ k → a.idempotent ≡ false) calls
      → (count k (attempts w calls).fired ≤ 1)
        × (count k (attempts w calls).fired ≤ entries (L.lookup (attempts w calls).ledger k))
  attempts_fire_at_most_once k w calls unseen unfired wr =
      let g =
        attempts-IsGuarded k w calls wr (record { once = omega arith; logged = λ _. unfired }) in
      ground (arith, g.once, g.logged)
