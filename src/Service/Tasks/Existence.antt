-- ===== src/Service/Tasks/Existence.antt =====
-- What a caller learns of a task by asking for it.
use agent_ship.Prelude.{String, ◌≡◌, ◌≢◌, Option, none, some, ◌==◌, if◌then◌else◌, arith, eq_iff}
use agent_ship.Dict.{get}
use agent_ship.Errors.{Error, Result, ok, raise, http_exception}
use agent_ship.Auth.Caller.{Caller}
use agent_ship.Tenancy.{guard_tenant, current_tenant_id}
use agent_ship.Service.Problem.{Problem, problem_response}
use agent_ship.Service.Tasks.{TaskRef, TaskStore, guarded_ref, get_task}
use agent_ship.Service.Tasks.Isolation.{bound_of}

-- The problem document of a request that raises.
abbrev pub refusal : {A : Type 0} → (Error → String) → String → Result A → Option Problem
refusal str method (ok a) = none
refusal str method (raise e) = some (problem_response str method e)

abbrev pub not_found : Option String → Problem
not_found detail = record {
  status = 404;
  title = "Not Found";
  code = some "not_found";
  detail = detail;
}

-- How a GET of a task is refused, by what the store has under its id.
abbrev refused : (Error → String) → String → Option (String × TaskRef) → Option Problem
refused str tenant none = some (not_found (some (str (http_exception 404))))
refused str tenant (some (owner, ref)) = if owner == tenant then none else some (not_found none)

module _ (str : Error → String) where
  -- A GET of a task succeeds exactly for a task of the caller's own tenant. For any other id it is
  -- refused with the same status, title and code, and with a detail only if there is no such task.
  get_task-refusal :
      (caller : Caller) (store : TaskStore) (task_id : String)
      → refusal str "GET" (get_task (bound_of caller) store task_id)
        ≡ refused str caller.tenant_id (get store task_id)
  unfolding get_task guarded_ref guard_tenant current_tenant_id problem_response
  get_task-refusal caller store task_id = ground (arith, eq_iff "GET" "GET")

  -- So a caller can tell another tenant's task from an id that is not in use: the two answers to a GET
  -- differ.
  pub get_task_tells_existence :
      (caller : Caller) (with_task without : TaskStore) (task_id : String) {owner : String}
      {ref : TaskRef}
      → get with_task task_id ≡ some (owner, ref)
      → owner ≢ caller.tenant_id
      → get without task_id ≡ none
      → refusal str "GET" (get_task (bound_of caller) with_task task_id)
        ≢ refusal str "GET" (get_task (bound_of caller) without task_id)
  get_task_tells_existence caller with_task without task_id {owner} there foreign absent same =
      ground (
        arith,
        get_task-refusal caller with_task task_id,
        get_task-refusal caller without task_id,
        eq_iff owner caller.tenant_id,
      )
