-- ===== src/Examples/Calls.antt =====
-- Tool calls through the ledger.
use agent_ship.Prelude.{ℕ, ◌≤◌, refl, true, false, List, [], ◌∷◌, eq_iff}
use mathlib.Core.Bool.{false≢true}
use agent_ship.Dict.{get}
use agent_ship.Ledger.Entry.{dict_ledger}
use agent_ship.Ledger.CallOnce.{Tool, World, answer, failure}
use agent_ship.Ledger.AtMostOnce.{count, entries, Attempt, attempts, attempts_fire_at_most_once}

abbrev paying : Tool ℕ
paying = record { call_reply = answer 7; verify_reply = answer 7 }

abbrev broken : Tool ℕ
broken = record { call_reply = failure; verify_reply = failure }

abbrev fresh_world : World (dict_ledger ℕ).Ledger
fresh_world = record { ledger = []; fired = []; steps = 9 }

-- The process dies behind the side effect; the next one verifies.
abbrev crash_then_retry : List (Attempt ℕ)
crash_then_retry =
    record { key = "pay"; fn = paying; idempotent = false; steps = 3 }
    ∷ record { key = "pay"; fn = paying; idempotent = false; steps = 9 }
    ∷ record { key = "log"; fn = broken; idempotent = true; steps = 9 }
    ∷ []

attempts_fire_at_most_once_example :
    (count "pay" (attempts (dict_ledger ℕ) fresh_world crash_then_retry).fired ≤ 1)
    × (count "pay" (attempts (dict_ledger ℕ) fresh_world crash_then_retry).fired
        ≤ entries (
            (dict_ledger ℕ).lookup
              (attempts (dict_ledger ℕ) fresh_world crash_then_retry).ledger
              "pay"))
unfolding get
attempts_fire_at_most_once_example =
    attempts_fire_at_most_once (dict_ledger ℕ) "pay" fresh_world crash_then_retry refl refl
      (λ _. refl, (λ _. refl, (λ e. absurd (false≢true ((eq_iff "log" "pay").1 e)), tt)))
