-- ===== src/Supervisor/Measure.antt =====
-- What is left of the retry budget: for each name of a list, how many attempts the cap still allows.
use agent_ship.Prelude.{
  ℕ, ◌+◌, ◌-◌, ◌*◌, ◌≤◌, ◌<◌, String, ◌≡◌, true, List, [], ◌∷◌, length, arith, ◌==◌, eq_iff, elem,
  if◌then◌else◌,
}
use agent_ship.Dict.{Dict, put, get-put}
use agent_ship.Specialist.Retry.{attempts_of}
use agent_ship.Supervisor.Nodes.{count_attempts}

-- sum(max(0, cap - attempts.get(u, 0)) for u in names)
unfoldable pub budget : ℕ → List String → Dict ℕ → ℕ
budget cap [] attempts = 0
budget cap (u ∷ us) attempts = (cap - attempts_of attempts u) + budget cap us attempts

abbrev bump : Dict ℕ → String → Dict ℕ
bump attempts n = put attempts n (attempts_of attempts n + 1)

attempts_of-bump :
    (attempts : Dict ℕ) (n u : String)
    → attempts_of (bump attempts n) u
      ≡ (if n == u then attempts_of attempts n + 1 else attempts_of attempts u)
attempts_of-bump attempts n u = ground (arith, get-put attempts n u (attempts_of attempts n + 1))

budget-bump-le :
    (cap : ℕ) (us : List String) (attempts : Dict ℕ) (n : String)
    → budget cap us (bump attempts n) ≤ budget cap us attempts
unfolding budget
budget-bump-le cap [] attempts n = omega arith
budget-bump-le cap (u ∷ us) attempts n =
    ground (arith, attempts_of-bump attempts n u, budget-bump-le cap us attempts n, eq_iff n u)

budget-bump-lt :
    (cap : ℕ) (us : List String) (attempts : Dict ℕ) (n : String)
    → elem n us ≡ true
    → attempts_of attempts n < cap
    → budget cap us (bump attempts n) < budget cap us attempts
unfolding budget
budget-bump-lt cap [] attempts n m lt = cc
budget-bump-lt cap (u ∷ us) attempts n m lt = ground (
  arith,
  attempts_of-bump attempts n u,
  budget-bump-le cap us attempts n,
  budget-bump-lt cap us attempts n,
  eq_iff n u,
)

budget-count_attempts-le :
    (cap : ℕ) (us names : List String) (attempts : Dict ℕ)
    → budget cap us (count_attempts names attempts) ≤ budget cap us attempts
unfolding count_attempts
budget-count_attempts-le cap us [] attempts = omega arith
budget-count_attempts-le cap us (n ∷ names) attempts = omega (
  arith,
  budget-count_attempts-le cap us names (bump attempts n),
  budget-bump-le cap us attempts n,
)

-- A pass over a nonempty list of names that are in the list and under the cap uses some of the budget.
pub budget-count_attempts-lt :
    (cap : ℕ) (us : List String) (n : String) (names : List String) (attempts : Dict ℕ)
    → elem n us ≡ true
    → attempts_of attempts n < cap
    → budget cap us (count_attempts (n ∷ names) attempts) < budget cap us attempts
unfolding count_attempts
budget-count_attempts-lt cap us n names attempts m lt = omega (
  arith,
  budget-count_attempts-le cap us names (bump attempts n),
  budget-bump-lt cap us attempts n m lt,
)

pub budget-le :
    (cap : ℕ) (us : List String) (attempts : Dict ℕ) → budget cap us attempts ≤ length us * cap
unfolding budget
budget-le cap [] attempts = omega arith
budget-le cap (u ∷ us) attempts = omega (arith, budget-le cap us attempts)
