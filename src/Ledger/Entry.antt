-- ===== src/Ledger/Entry.antt =====
-- The ledger's entries, its protocol, and the in-memory implementation.
use agent_ship.Prelude.{String, ◌≡◌, Option, some, ◌==◌, if◌then◌else◌}
use agent_ship.Dict.{Dict, get, put, get-put}

-- `done` carries the recorded result; a pending entry has none.
pub data LedgerEntry (V : Type 0) : Type 0 where
  pending : LedgerEntry V
  done : (result : V) → LedgerEntry V

-- A value is one implementation of the protocol, with the law that `call_once` relies on.
pub record IdempotencyLedger (V : Type 0) : Type 1 where
  pub Ledger : Type 0
  pub lookup : Ledger → String → Option (LedgerEntry V)
  pub record_entry : Ledger → String → LedgerEntry V → Ledger
  pub lookup-record_entry :
      (l : Ledger) (k j : String) (e : LedgerEntry V)
      → lookup (record_entry l k e) j ≡ (if k == j then some e else lookup l j)

abbrev pub dict_ledger : (V : Type 0) → IdempotencyLedger V
dict_ledger V = record {
  Ledger = Dict (LedgerEntry V);
  lookup = get;
  record_entry = put;
  lookup-record_entry = get-put;
}
