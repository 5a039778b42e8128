-- ===== src/ThreadLock/Exclusion.antt =====
-- The owners of keys, under any interleaving of the lock's methods.
use agent_ship.Prelude.{ℕ, ◌≡◌, Bool, true, false, List, [], ◌∷◌, eqb, if◌then◌else◌, arith}
use agent_ship.Errors.{raise, thread_busy_error}
use agent_ship.ThreadLock.{Locks, holds, discard, set_owned, enter, exit}

-- The lock objects, and which of their owners' coroutines still live. A coroutine that dies never
-- reaches `__aexit__`.
pub record System : Type 0 where
  pub locks : Locks
  pub alive : ℕ → Bool

module _ (key : ℕ → ℕ) where
  -- One step of some coroutine, or of the supervisor that reclaims a key none of whose owners lives.
  pub data Step (s : System) (t : System) : Type 0 where
    enters :
        (i : ℕ) → s.alive i ≡ true → t ≡ record s { locks = (enter key i s.locks).1 } → Step s t
    exits : (i : ℕ) → s.alive i ≡ true → t ≡ record s { locks = exit key i s.locks } → Step s t
    dies : (i : ℕ) → t ≡ record s { alive = set_owned s.alive i false } → Step s t
    reclaims :
        (k : ℕ)
        → ((i : ℕ) → key i ≡ k → s.locks.owned i ≡ true → s.alive i ≡ false)
        → t ≡ record s { locks = record s.locks { held = discard k s.locks.held } }
        → Step s t

  pub data Reach (s : System) : System → Type 0 where
    here : Reach s s
    next : {t u : System} → Reach s t → Step t u → Reach s u

  -- Live owners hold their key, and no two of them have one key.
  record IsExclusive (s : System) : Type 0 where
    held : (i : ℕ) → s.alive i ≡ true → s.locks.owned i ≡ true → holds (key i) s.locks.held ≡ true
    one :
        (i j : ℕ)
        → s.alive i ≡ true
        → s.alive j ≡ true
        → s.locks.owned i ≡ true
        → s.locks.owned j ≡ true
        → key i ≡ key j
        → i ≡ j

  holds-discard :
      (k j : ℕ) (held : List ℕ)
      → holds j (discard k held) ≡ (if eqb k j then false else holds j held)
  unfolding discard
  holds-discard k j [] = ground arith
  holds-discard k j (h ∷ held) = ground (arith, holds-discard k j held)

  enter-IsExclusive :
      (i : ℕ) (s : System)
      → s.alive i ≡ true
      → IsExclusive s
      → IsExclusive (record s { locks = (enter key i s.locks).1 })
  unfolding enter
  enter-IsExclusive i s a x = record {
    held = λ j aj oj. ground (arith, x.held j aj);
    one = λ j l aj al oj ol e. ground (arith, x.one j l aj al, x.held j aj, x.held l al, e);
  }

  exit-IsExclusive :
      (i : ℕ) (s : System)
      → s.alive i ≡ true
      → IsExclusive s
      → IsExclusive (record s { locks = exit key i s.locks })
  unfolding exit
  exit-IsExclusive i s a x = record {
    held = λ j aj oj.
        ground (arith, x.held j aj, x.one i j a aj, holds-discard (key i) (key j) s.locks.held);
    one = λ j l aj al oj ol e. ground (arith, x.one j l aj al, e);
  }

  Step-IsExclusive : {s t : System} → Step s t → IsExclusive s → IsExclusive t
  Step-IsExclusive {s} (enters i a e) x = rw e (enter-IsExclusive i s a x)
  Step-IsExclusive {s} (exits i a e) x = rw e (exit-IsExclusive i s a x)
  Step-IsExclusive {s} (dies i e) x = rw e (record {
    held = λ j aj oj. ground (arith, x.held j);
    one = λ j l aj al oj ol e'. ground (arith, x.one j l, e');
  })
  Step-IsExclusive {s} (reclaims k dead e) x = rw e (record {
    held = λ j aj oj. ground (arith, x.held j aj oj, dead j, holds-discard k (key j) s.locks.held);
    one = x.one;
  })

  Reach-IsExclusive : {s t : System} → IsExclusive s → Reach s t → IsExclusive t
  Reach-IsExclusive x here = x
  Reach-IsExclusive x (next r st) = Step-IsExclusive st (Reach-IsExclusive x r)

  abbrev pub initial : System
  initial = record { locks = record { held = []; owned = λ i. false }; alive = λ i. true }

  -- Whatever steps are taken from the start, with coroutines that die and keys that are reclaimed when
  -- all their owners are dead, two live owners of one key are one lock object; and a live owner's key
  -- is held, so that no other object can take it.
  pub owners_exclusive :
      {t : System} (i j : ℕ)
      → Reach initial t
      → t.alive i ≡ true
      → t.alive j ≡ true
      → t.locks.owned i ≡ true
      → t.locks.owned j ≡ true
      → key i ≡ key j
      → (i ≡ j) × (enter key j t.locks ≡ (raise thread_busy_error, t.locks))
  unfolding enter
  owners_exclusive i j r ai aj oi oj e =
      let x =
        Reach-IsExclusive (record { held = λ l a o. absurd (cc); one = λ l m a b o. absurd (cc) })
          r in
      (x.one i j ai aj oi oj e, rw (x.held j aj oj))
