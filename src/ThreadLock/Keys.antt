-- ===== src/ThreadLock/Keys.antt =====
-- The keys of threads, `advisory_key`.
use agent_ship.Prelude.{ℕ, String, ◌≡◌, refl, Bool, true, eqb}
use agent_ship.Text.{lacks}
use agent_ship.Text.Separated.{separated-injective}
use agent_ship.ThreadLock.{payload, advisory_key}

abbrev pub is_unit_separator : ℕ → Bool
is_unit_separator c = eqb c 31

-- If the digests of two threads' texts do not collide and tenants have no separator in their ids, the
-- threads share a lock only if tenant and thread are the same.
advisory_key-injective :
    (digest : String → ℕ) (tenant tenant' thread thread' : String)
    → (digest (payload tenant thread) ≡ digest (payload tenant' thread')
        → payload tenant thread ≡ payload tenant' thread')
    → lacks is_unit_separator tenant ≡ true
    → lacks is_unit_separator tenant' ≡ true
    → advisory_key digest tenant thread ≡ advisory_key digest tenant' thread'
    → (tenant ≡ tenant') × (thread ≡ thread')
unfolding advisory_key
advisory_key-injective digest tenant tenant' thread thread' no_collision l l' e =
    separated-injective is_unit_separator "\u{1f}" tenant tenant' thread thread' refl l l'
      (no_collision e)
