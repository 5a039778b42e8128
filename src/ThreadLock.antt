-- ===== src/ThreadLock.antt =====
-- agentship/thread_lock.py: the single owner of a thread, in one process. Under asyncio a method runs
-- whole between two awaits, so each is one step.
pub mod Exclusion
pub mod Keys
use Prim.Native.String.{◌++◌ as ◌<>◌}
use agent_ship.Prelude.{
  ℕ, String, Bool, true, false, not, List, [], ◌∷◌, eqb, if◌then◌else◌, elem, keep, ◌==◌,
}
use agent_ship.Errors.{Result, ok, raise, thread_busy_error}

-- `digest` is blake2b of the payload, read as a number.
abbrev pub payload : String → String → String
payload tenant_id thread_id = tenant_id <> ("\u{1f}" <> thread_id)

-- key in held, over the keys of the locks
abbrev pub holds : ℕ → List ℕ → Bool
holds k [] = false
holds k (j ∷ held) = if eqb k j then true else holds k held

-- held.discard(key)
unfoldable pub discard : ℕ → List ℕ → List ℕ
discard k [] = []
discard k (j ∷ held) = let rest = discard k held in if eqb k j then rest else j ∷ rest

-- The class's set of held keys, and each lock object's `_owned`. Lock objects are numbered.
pub record Locks : Type 0 where
  pub held : List ℕ
  pub owned : ℕ → Bool

abbrev pub set_owned : (ℕ → Bool) → ℕ → Bool → ℕ → Bool
set_owned owned i b j = if eqb i j then b else owned j

module _ (digest : String → ℕ) where
  unfoldable pub advisory_key : String → String → ℕ
  advisory_key tenant_id thread_id = digest (payload tenant_id thread_id)

  unfoldable release_dead_owner : String → String → Locks → Locks
  unfolding advisory_key discard
  release_dead_owner tenant_id thread_id s = record s {
    held = discard (advisory_key tenant_id thread_id) s.held;
  }

-- `key i` is the key that the object `i` was made with.
module _ (key : ℕ → ℕ) where
  -- __aenter__
  unfoldable pub enter : ℕ → Locks → Result (Unit {0}) × Locks
  enter i s =
      if holds (key i) s.held
      then (raise thread_busy_error, s)
      else (ok tt, record s { held = key i ∷ s.held; owned = set_owned s.owned i true })

  -- __aexit__
  unfoldable pub exit : ℕ → Locks → Locks
  unfolding discard
  exit i s =
      if s.owned i
      then record s { held = discard (key i) s.held; owned = set_owned s.owned i false }
      else s
