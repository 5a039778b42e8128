-- ===== src/Specialist/Dispatch.antt =====
-- primitives/dispatch.py: running specialists through their `run` port.
pub mod Names
use agent_ship.Prelude.{
  ℕ, suc, ◌+◌, String, Bool, true, false, Option, none, some, List, [], ◌∷◌, map, ◌==◌,
  if◌then◌else◌,
}
use Prim.Native.String.{◌++◌ as ◌<>◌}
use agent_ship.Dict.{Dict, get}
use agent_ship.Errors.{Result, ok, raise, capability_error, ◌>>=◌}
use agent_ship.Specialist.Values.{Values, SpecialistResult}

-- What an agent's `run` returns: a Pydantic model, given by its `model_dump()`, a dict, or another
-- value.
pub data Output (Value : Type 0) : Type 0 where
  model dict : Dict Value → Output Value
  scalar : Value → Output Value

-- How one run of an agent ends, with the text of its exception.
pub data Run (Value : Type 0) : Type 0 where
  answered : Output Value → Run Value
  timed_out : Run Value
  failed : (message : String) → Run Value

pub data Strategy : Type 0 where
  single parallel sequential : Strategy

-- What a run of an agent does is not the program's choice: it may differ from run to run. `run agent n
-- message` is how the run that is the `n`-th to start ends.
pub record Agents (Value : Type 0) : Type 1 where
  pub Agent : Type 0
  pub run : Agent → ℕ → String → Run Value

pub record AgentRef (Agent : Type 0) : Type 0 where
  pub name : String
  pub agent : Agent

module _ {Agent : Type 0} where
  -- registry.get(name), and CapabilityError for a name that is not there
  unfoldable pub resolve_ref : String → Dict Agent → Result (AgentRef Agent)
  resolve_ref name registry = elim (get registry name) [
    | none ↦ raise capability_error
    | some agent ↦ ok (record { name = name; agent = agent })
  ]

  -- [AgentRef.resolve(name, specialists) for name in names]
  unfoldable pub resolve_refs : List String → Dict Agent → Result (List (AgentRef Agent))
  unfolding resolve_ref
  resolve_refs [] registry = ok []
  resolve_refs (name ∷ names) registry = do
    ref ← resolve_ref name registry
    refs ← resolve_refs names registry
    ok (ref ∷ refs)

-- `timeout_s` is given by its text, which is all that the result shows of it.
module _ (P : Values) (A : Agents P.Value) (timeout_s : String) where
  as_dict : Output P.Value → Dict P.Value
  as_dict (model fields) = fields
  as_dict (dict fields) = fields
  as_dict (scalar value) = ("output", value) ∷ []

  -- output.get("confidence")
  confidence_of : Dict P.Value → Option P.Value
  confidence_of output = elim (get output "confidence") [
    | none ↦ none
    | some v ↦ if P.is_none v then none else some v
  ]

  error_result : String → String → SpecialistResult P.Value
  error_result name message = record {
    name = name;
    output = [];
    confidence = none;
    error = some message;
  }

  of_run : String → Run P.Value → SpecialistResult P.Value
  unfolding as_dict confidence_of error_result
  of_run name (answered output) = record {
    name = name;
    output = as_dict output;
    confidence = confidence_of (as_dict output);
    error = none;
  }
  of_run name timed_out = error_result name ("timed out after " <> timeout_s <> "s")
  of_run name (failed message) = error_result name message

  -- A failure or a timeout is an error result, never an exception.
  unfoldable pub run_safely : AgentRef A.Agent → ℕ → String → SpecialistResult P.Value
  unfolding of_run
  run_safely ref n message = of_run ref.name (A.run ref.agent n message)

  -- the text that a `sequential` step hands to the next specialist
  unfoldable forward_text : SpecialistResult P.Value → String
  forward_text result = elim (get result.output "output") [
    | none ↦ P.str_dict result.output
    | some value ↦ elim (P.as_str value) [ none ↦ P.str value | some text ↦ text ]
  ]

  -- asyncio.gather keeps the order of the refs
  unfoldable pub run_parallel :
      List (AgentRef A.Agent) → ℕ → String → List (SpecialistResult P.Value)
  unfolding run_safely
  run_parallel [] n message = []
  run_parallel (ref ∷ refs) n message = run_safely ref n message ∷ run_parallel refs (n + 1) message

  unfoldable pub run_sequential :
      List (AgentRef A.Agent) → ℕ → String → List (SpecialistResult P.Value)
  unfolding run_safely forward_text
  run_sequential [] n text = []
  run_sequential (ref ∷ refs) n text =
      let result = run_safely ref n text in
      result ∷ run_sequential refs (n + 1) (forward_text result)

  -- `n` is the number of runs that have started before.
  unfoldable pub dispatch :
      Strategy → List (AgentRef A.Agent) → ℕ → String → List (SpecialistResult P.Value)
  unfolding run_safely run_parallel run_sequential
  dispatch strategy [] n message = []
  dispatch single (ref ∷ refs) n message = run_safely ref n message ∷ []
  dispatch parallel (ref ∷ refs) n message = run_parallel (ref ∷ refs) n message
  dispatch sequential (ref ∷ refs) n message = run_sequential (ref ∷ refs) n message
