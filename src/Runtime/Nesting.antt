-- ===== src/Runtime/Nesting.antt =====
-- The context variables and the observers of nested turns.
use agent_ship.Prelude.{
  String, ◌≡◌, refl, ap, ◌∙◌, Bool, true, false, Option, none, some, List, [], ◌∷◌, ◌++◌, All,
  arith, ◌&&◌, Bool-cases, inl, inr,
}
use agent_ship.Spec.{Durability}
use agent_ship.Runtime.Session.{
  Vars, run, stream, resume, Turn, turn, Turns, no_more, then_turn, RootSpan, may_resume, set_run,
  set_two, put_back, ambient_or, is_some_observer, take_turn, take_turns,
}

module _ {Observer : Type 0} where
  mutual
    unfolding take_turn

    turn-restores : (t : Turn Observer) (vars : Vars Observer) → (take_turn t vars).1 ≡ vars
    turn-restores (turn run run_id session_id durability own inner) vars = refl
    turn-restores (turn stream run_id session_id durability own inner) vars =
        ap (put_back vars) (turns-restore inner (set_two run_id own vars))
    turn-restores (turn resume run_id session_id durability own inner) vars =
        elim (Bool-cases (may_resume session_id durability)) [
          | inl e ↦ rw e (ap (put_back vars) (turns-restore inner (set_two run_id own vars)))
          | inr e ↦ rw e refl
        ]

    turns-restore : (ts : Turns Observer) (vars : Vars Observer) → (take_turns ts vars).1 ≡ vars
    turns-restore no_more vars = refl
    turns-restore (then_turn t ts) vars =
        turns-restore ts (take_turn t vars).1 ∙ turn-restores t vars

  -- All turns are runs.
  unfoldable mutual
    pub are_runs : Turns Observer → Bool
    are_runs no_more = true
    are_runs (then_turn t ts) = is_run t && are_runs ts

    pub is_run : Turn Observer → Bool
    is_run (turn run run_id session_id durability own inner) = are_runs inner
    is_run (turn stream run_id session_id durability own inner) = false
    is_run (turn resume run_id session_id durability own inner) = false

  -- The spans go to an observer, whose callback is installed already.
  abbrev pub GoTo : Observer → List (RootSpan Observer) → Type 0
  GoTo o = All (λ s. (s.observer ≡ o) × (s.callback_left ≡ true))

  GoTo-append :
      (o : Observer) (xs ys : List (RootSpan Observer)) → GoTo o xs → GoTo o ys → GoTo o (xs ++ ys)
  GoTo-append o [] ys h h' = h'
  GoTo-append o (x ∷ xs) ys h h' = (h.0, GoTo-append o xs ys h.1 h')

  mutual
    unfolding take_turn are_runs

    turn-GoTo :
        (o : Observer) (t : Turn Observer) (vars : Vars Observer)
        → vars.current_observer ≡ some o
        → is_run t ≡ true
        → GoTo o (take_turn t vars).0
    turn-GoTo o (turn run run_id session_id durability own inner) vars h r = (
      (ap (λ a. ambient_or a own) h, ap is_some_observer h),
      turns-GoTo o inner _ (ap (λ a. some (ambient_or a own)) h) r,
    )
    turn-GoTo o (turn stream run_id session_id durability own inner) vars h r = cc
    turn-GoTo o (turn resume run_id session_id durability own inner) vars h r = cc

    turns-GoTo :
        (o : Observer) (ts : Turns Observer) (vars : Vars Observer)
        → vars.current_observer ≡ some o
        → are_runs ts ≡ true
        → GoTo o (take_turns ts vars).0
    turns-GoTo o no_more vars h r = tt
    turns-GoTo o (then_turn t ts) vars h r =
        GoTo-append o _ _ (turn-GoTo o t vars h (ground (arith, r))) (
          turns-GoTo o ts _
            (ap (λ (v : Vars Observer). v.current_observer) (turn-restores t vars) ∙ h)
            (ground (arith, r)))

  -- An outermost run whose nested turns are all runs is recorded by its own observer alone: all their
  -- spans go to it, only its own engine installs a callback, and the context variables are put back.
  pub run_records_nested :
      (run_id : String) (session_id : Option String) (durability : Durability) (own : Observer)
      (inner : Turns Observer) (vars : Vars Observer)
      → vars.current_observer ≡ none
      → are_runs inner ≡ true
      → let r = take_turn (turn run run_id session_id durability own inner) vars in
        (r.1 ≡ vars)
        × ((nested : List (RootSpan Observer)) × (r.0
              ≡ record { run_id = run_id; observer = own; callback_left = false } ∷ nested)
            × GoTo own nested)
  unfolding take_turn
  run_records_nested run_id session_id durability own inner vars outermost runs =
      let o = vars.current_observer in
      let nested =
        (take_turns inner (set_run run_id (ambient_or o own) (is_some_observer o) vars)).0 in
      (
        turn-restores (turn run run_id session_id durability own inner) vars,
        (
          nested,
          ap
              (λ a.
                record {
                  run_id = run_id;
                  observer = ambient_or a own;
                  callback_left = is_some_observer a;
                }
                ∷ nested)
              outermost,
          turns-GoTo own inner _ (ap (λ a. some (ambient_or a own)) outermost) runs,
        ),
      )
