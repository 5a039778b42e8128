-- ===== src/Runtime/Session.antt =====
-- `run`, `stream` and `resume` of RunnableAgent around the pipeline: the context variables of a turn, for
-- turns that nest.
use agent_ship.Prelude.{
  String, Bool, true, false, Option, none, some, List, [], ◌∷◌, ◌++◌, if◌then◌else◌,
}
use agent_ship.Spec.{Durability, not_durable}
use agent_ship.Engine.{same_durability}

-- current_run, by its run id, current_observer and tracing_callback_installed
pub record Vars (Observer : Type 0) : Type 0 where
  pub current_run : Option String
  pub current_observer : Option Observer
  pub tracing_installed : Bool

pub data Verb : Type 0 where
  run stream resume : Verb

-- A turn of an agent, with the turns of others that its engine and its hooks start, in order. It may end
-- in any way: what is put back is put back in `finally`.
mutual
  pub data Turn (Observer : Type 0) : Type 0 where
    turn :
        (verb : Verb) (run_id : String) (session_id : Option String) (durability : Durability)
        (own : Observer) (inner : Turns Observer)
        → Turn Observer

  pub data Turns (Observer : Type 0) : Type 0 where
    no_more : Turns Observer
    then_turn : Turn Observer → Turns Observer → Turns Observer

-- The root span of a turn: who records it, and whether its engine leaves the callback to another.
pub record RootSpan (Observer : Type 0) : Type 0 where
  pub run_id : String
  pub observer : Observer
  pub callback_left : Bool

-- The guards of `resume`, which come before anything is set.
abbrev pub may_resume : Option String → Durability → Bool
may_resume none durability = false
may_resume (some session_id) durability =
    if same_durability durability not_durable then false else true

module _ {Observer : Type 0} where
  abbrev pub is_some_observer : Option Observer → Bool
  is_some_observer none = false
  is_some_observer (some o) = true

  -- ambient if nested else self.observer
  abbrev pub ambient_or : Option Observer → Observer → Observer
  ambient_or none own = own
  ambient_or (some ambient) own = ambient

  -- what a turn sets
  abbrev pub set_run : String → Observer → Bool → Vars Observer → Vars Observer
  set_run run_id observer nested vars = record {
    current_run = some run_id;
    current_observer = some observer;
    tracing_installed = nested;
  }

  abbrev pub set_two : String → Observer → Vars Observer → Vars Observer
  set_two run_id observer vars = record vars {
    current_run = some run_id;
    current_observer = some observer;
  }

  abbrev pub put_back : Vars Observer → Vars Observer → Vars Observer
  put_back before vars = record vars {
    current_run = before.current_run;
    current_observer = before.current_observer;
  }

  -- The root spans that a turn opens, its own first, and the variables that it leaves.
  unfoldable mutual
    pub take_turn : Turn Observer → Vars Observer → List (RootSpan Observer) × Vars Observer
    take_turn (turn run run_id session_id durability own inner) vars =
        let nested = is_some_observer vars.current_observer in
        let observer = ambient_or vars.current_observer own in
        let rest = take_turns inner (set_run run_id observer nested vars) in
        (
          record { run_id = run_id; observer = observer; callback_left = nested } ∷ rest.0,
          record (put_back vars rest.1) { tracing_installed = vars.tracing_installed },
        )
    take_turn (turn stream run_id session_id durability own inner) vars =
        let rest = take_turns inner (set_two run_id own vars) in
        (
          record { run_id = run_id; observer = own; callback_left = vars.tracing_installed }
              ∷ rest.0,
          put_back vars rest.1,
        )
    take_turn (turn resume run_id session_id durability own inner) vars =
        let rest = take_turns inner (set_two run_id own vars) in
        if may_resume session_id durability
        then (
          record { run_id = run_id; observer = own; callback_left = vars.tracing_installed }
              ∷ rest.0,
          put_back vars rest.1,
        )
        else ([], vars)

    pub take_turns : Turns Observer → Vars Observer → List (RootSpan Observer) × Vars Observer
    take_turns no_more vars = ([], vars)
    take_turns (then_turn t ts) vars =
        let first = take_turn t vars in
        let rest = take_turns ts first.1 in (first.0 ++ rest.0, rest.1)
