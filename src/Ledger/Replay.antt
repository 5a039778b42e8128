-- ===== src/Ledger/Replay.antt =====
-- What an attempt returns, and what a later attempt at the same key then does.
use agent_ship.Prelude.{
  ℕ, suc, ◌≤◌, String, ◌≡◌, Bool, true, false, Option, none, some, ◌∷◌, arith, eq_refl,
}
use agent_ship.Ledger.Entry.{LedgerEntry, pending, done, IdempotencyLedger}
use agent_ship.Ledger.CallOnce.{
  Tool, Reply, World, Outcome, returned, raised, call_once, answer, failure,
}

-- How an attempt ends that gets as far as a reply, and the entry that it leaves.
abbrev ended : {V : Type 0} → Reply V → Outcome V
ended (answer v) = returned v
ended failure = raised

abbrev left : {V : Type 0} → Bool → Reply V → Option (LedgerEntry V)
left idempotent (answer v) = some (done v)
left true failure = none
left false failure = some pending

module _ {V : Type 0} (L : IdempotencyLedger V) where
  lookup-record_entry_self :
      (l : L.Ledger) (k : String) (e : LedgerEntry V) → L.lookup (L.record_entry l k e) k ≡ some e
  lookup-record_entry_self l k e = rw (L.lookup-record_entry l k k e, eq_refl k)

  returned_is_done :
      (key : String) (fn : Tool V) (idempotent : Bool) (w : World L.Ledger) {v : V}
      → (call_once L key fn idempotent w).0 ≡ returned v
      → L.lookup (call_once L key fn idempotent w).1.ledger key ≡ some (done v)
  unfolding call_once
  returned_is_done key fn idempotent w h = grind (arith, lookup-record_entry_self)

  done_replays :
      (key : String) (fn : Tool V) (idempotent : Bool) (w : World L.Ledger) (n : ℕ) (v : V)
      → L.lookup w.ledger key ≡ some (done v)
      → call_once L key fn idempotent (record w { steps = suc n })
        ≡ (returned v, record w { steps = n })
  unfolding call_once
  done_replays key fn idempotent w n v e = rw e

  -- Once an attempt at a key has returned a value, a later attempt at it that lives for one step
  -- returns that value, whatever tool and flag it is made with, and changes neither the ledger nor
  -- what has happened.
  call_once_replays :
      (key : String) (fn fn' : Tool V) (idempotent idempotent' : Bool) (w : World L.Ledger) (n : ℕ)
      {v : V}
      → (call_once L key fn idempotent w).0 ≡ returned v
      → call_once L key fn' idempotent'
          (record (call_once L key fn idempotent w).1 { steps = suc n })
        ≡ (returned v, record (call_once L key fn idempotent w).1 { steps = n })
  call_once_replays key fn fn' idempotent idempotent' w n {v} h =
      done_replays key fn' idempotent' (call_once L key fn idempotent w).1 n v
        (returned_is_done key fn idempotent w h)

  -- An attempt at a key with no entry, by a process that lives for four steps, has one more side
  -- effect and ends as its tool does: it returns the tool's answer, or lets its exception out. The
  -- entry it leaves is `done` with the answer; after a failure it is pending if the call is not
  -- idempotent, and there is none if it is.
  call_once_runs_unseen :
      (key : String) (fn : Tool V) (idempotent : Bool) (w : World L.Ledger)
      → L.lookup w.ledger key ≡ none
      → 4 ≤ w.steps
      → ((call_once L key fn idempotent w).1.fired ≡ key ∷ w.fired)
        × ((call_once L key fn idempotent w).0 ≡ ended fn.call_reply)
        × (L.lookup (call_once L key fn idempotent w).1.ledger key ≡ left idempotent fn.call_reply)
  unfolding call_once
  call_once_runs_unseen key fn idempotent w unseen long =
      grind (arith, lookup-record_entry_self, unseen)

  -- An attempt at a key whose entry is pending, by a process that lives for three steps, has no side
  -- effect and ends as the tool's `verify` does. The entry is then `done` with the value
  -- that was verified, or still pending if verifying failed.
  call_once_verifies_pending :
      (key : String) (fn : Tool V) (idempotent : Bool) (w : World L.Ledger)
      → L.lookup w.ledger key ≡ some pending
      → 3 ≤ w.steps
      → ((call_once L key fn idempotent w).1.fired ≡ w.fired)
        × ((call_once L key fn idempotent w).0 ≡ ended fn.verify_reply)
        × (L.lookup (call_once L key fn idempotent w).1.ledger key ≡ left false fn.verify_reply)
  unfolding call_once
  call_once_verifies_pending key fn idempotent w seen long =
      grind (arith, lookup-record_entry_self, seen)
