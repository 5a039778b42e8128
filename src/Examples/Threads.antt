-- ===== src/Examples/Threads.antt =====
-- Two owners of one thread, and two threads.
use agent_ship.Prelude.{ℕ, ◌≡◌, refl}
use agent_ship.Errors.{raise, thread_busy_error}
use agent_ship.ThreadLock.{enter}
use agent_ship.ThreadLock.Exclusion.{System, enters, Reach, here, next, initial, owners_exclusive}

-- All lock objects are of one thread.
abbrev one_key : ℕ → ℕ
one_key i = 5

abbrev taken : System
taken = record (initial one_key) { locks = (enter one_key 1 (initial one_key).locks).1 }

taken-Reach : Reach one_key (initial one_key) taken
taken-Reach = next here (enters 1 refl refl)

owners_exclusive_example :
    (◌≡◌ {A = ℕ} 1 1) × (enter one_key 1 taken.locks ≡ (raise thread_busy_error, taken.locks))
unfolding enter
owners_exclusive_example =
    owners_exclusive one_key {t = taken} 1 1 taken-Reach refl refl refl refl refl
