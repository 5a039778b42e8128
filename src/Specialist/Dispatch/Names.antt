-- ===== src/Specialist/Dispatch/Names.antt =====
-- The names in the results of `dispatch`.
use agent_ship.Prelude.{ℕ, ◌+◌, String, ◌≡◌, sym, List, [], ◌∷◌, arith, All, subst}
use agent_ship.Dict.{Dict}
use agent_ship.Errors.{ok, >>=-eq-ok}
use agent_ship.Specialist.Values.{Values}
use agent_ship.Specialist.Dispatch.{
  Agents, AgentRef, Strategy, single, parallel, sequential, resolve_ref, resolve_refs, run_safely,
  run_parallel, run_sequential, dispatch,
}

module _ {Agent : Type 0} (registry : Dict Agent) where
  name-resolve_ref :
      (name : String) (ref : AgentRef Agent) → resolve_ref name registry ≡ ok ref → ref.name ≡ name
  unfolding resolve_ref
  name-resolve_ref name ref e = ground arith

  pub All-resolve_refs :
      (Q : String → Type 0) (names : List String) (refs : List (AgentRef Agent))
      → resolve_refs names registry ≡ ok refs
      → All Q names
      → All (λ ref. Q ref.name) refs
  unfolding resolve_refs
  All-resolve_refs Q [] refs e q = let p : [] ≡ refs = cc in subst (All (λ ref. Q ref.name)) p tt
  All-resolve_refs Q (n ∷ names) refs e q =
      let (ref, found, rest) = >>=-eq-ok (resolve_ref n registry) _ e in
      let (refs', found', whole) = >>=-eq-ok (resolve_refs names registry) _ rest in
      let p : ref ∷ refs' ≡ refs = cc in
      subst (All (λ ref. Q ref.name)) p (
        subst Q (sym (name-resolve_ref n ref found)) q.0,
        All-resolve_refs Q names refs' found' q.1,
      )

module _ (P : Values) (A : Agents P.Value) (timeout : String) where
  name-run_safely :
      (ref : AgentRef A.Agent) (n : ℕ) (message : String)
      → (run_safely P A timeout ref n message).name ≡ ref.name
  unfolding run_safely
  name-run_safely ref n message = ground arith

  module _ (Q : String → Type 0) where
    All-run_parallel :
        (refs : List (AgentRef A.Agent)) (n : ℕ) (message : String)
        → All (λ ref. Q ref.name) refs
        → All (λ r. Q r.name) (run_parallel P A timeout refs n message)
    unfolding run_parallel
    All-run_parallel [] n message q = tt
    All-run_parallel (ref ∷ refs) n message q = (
      subst Q (sym (name-run_safely ref n message)) q.0,
      All-run_parallel refs (n + 1) message q.1,
    )

    All-run_sequential :
        (refs : List (AgentRef A.Agent)) (n : ℕ) (text : String)
        → All (λ ref. Q ref.name) refs
        → All (λ r. Q r.name) (run_sequential P A timeout refs n text)
    unfolding run_sequential
    All-run_sequential [] n text q = tt
    All-run_sequential (ref ∷ refs) n text q =
        (subst Q (sym (name-run_safely ref n text)) q.0, All-run_sequential refs (n + 1) _ q.1)

    pub All-dispatch :
        (strategy : Strategy) (refs : List (AgentRef A.Agent)) (n : ℕ) (message : String)
        → All (λ ref. Q ref.name) refs
        → All (λ r. Q r.name) (dispatch P A timeout strategy refs n message)
    unfolding dispatch
    All-dispatch single [] n message q = tt
    All-dispatch strategy [] n message q = tt
    All-dispatch single (ref ∷ refs) n message q =
        (subst Q (sym (name-run_safely ref n message)) q.0, tt)
    All-dispatch parallel (ref ∷ refs) n message q = All-run_parallel (ref ∷ refs) n message q
    All-dispatch sequential (ref ∷ refs) n message q = All-run_sequential (ref ∷ refs) n message q
