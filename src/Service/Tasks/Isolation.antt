-- ===== src/Service/Tasks/Isolation.antt =====
-- What the requests of one tenant do to the tasks of another, in routers/tasks.py.
use agent_ship.Prelude.{
  String, ◌≡◌, ◌≢◌, refl, ◌∙◌, none, some, List, [], ◌∷◌, All, arith, eq_iff, eq_refl, Option-cases,
  inl, inr,
}
use agent_ship.Dict.{get, get-put_self}
use agent_ship.Errors.{ok}
use agent_ship.Auth.Caller.{Caller}
use agent_ship.Auth.Scopes.{authorize}
use agent_ship.Tenancy.{Bound, guard_tenant, current_tenant_id}
use agent_ship.Service.Tasks.{
  TaskRef, TaskStore, TaskCreateRequest, create, for_tenant, guarded_ref, create_task, get_task,
  cancel_task,
}
use agent_ship.Service.Tasks.Views.{for_tenant-put_new, for_tenant-put_owned}

pub data TaskRequest : Type 0 where
  create_one : (fresh : String) → TaskCreateRequest → TaskRequest
  list_all : TaskRequest
  get_one cancel_one : (task_id : String) → TaskRequest

-- The binding that the middleware makes for a caller.
abbrev pub bound_of : Caller → Bound
bound_of caller = some (record { tenant_id = caller.tenant_id; user_id = caller.user_id })

-- The store after a caller's request.
pub after : Caller → TaskStore → TaskRequest → TaskStore
after caller store (create_one fresh body) =
    (create_task (bound_of caller) caller store fresh body).1
after caller store list_all = store
after caller store (get_one task_id) = store
after caller store (cancel_one task_id) = (cancel_task (bound_of caller) store task_id).1

-- The store after callers' requests, in order.
unfoldable pub after_all : TaskStore → List (Caller × TaskRequest) → TaskStore
unfolding after
after_all store [] = store
after_all store ((caller, request) ∷ rest) = after_all (after caller store request) rest

-- The ids that `uuid4` mints are not in use.
abbrev IsFresh : TaskStore → TaskRequest → Type 0
IsFresh store (create_one fresh body) = get store fresh ≡ none
IsFresh store _ = Unit

abbrev AllFresh : TaskStore → List (Caller × TaskRequest) → Type 0
AllFresh store [] = Unit
AllFresh store ((caller, request) ∷ rest) =
    IsFresh store request × AllFresh (after caller store request) rest

abbrev pending_ref : String → TaskCreateRequest → TaskRef
pending_ref fresh body = record {
  id = fresh;
  status = "pending";
  agent = body.agent;
  session_id = body.session_id;
}

for_tenant-cancel_task :
    (store : TaskStore) (tenant : String) (caller : Caller) (task_id : String)
    → caller.tenant_id ≢ tenant
    → for_tenant (cancel_task (bound_of caller) store task_id).1 tenant ≡ for_tenant store tenant
unfolding cancel_task guard_tenant
for_tenant-cancel_task store tenant caller task_id ne = elim (Option-cases (get store task_id)) [
  | inl e ↦ ground (arith, e)
  | inr ((owner, ref), e) ↦ ground (
    arith,
    e,
    eq_iff owner caller.tenant_id,
    for_tenant-put_owned store tenant task_id owner ref (record ref { status = "cancelled" }) e,
  )
]

for_tenant-after :
    (store : TaskStore) (tenant : String) (caller : Caller) (request : TaskRequest)
    → caller.tenant_id ≢ tenant
    → IsFresh store request
    → for_tenant (after caller store request) tenant ≡ for_tenant store tenant
unfolding after create_task create current_tenant_id
for_tenant-after store tenant caller (create_one fresh body) ne f =
    ground
      (arith, for_tenant-put_new store tenant fresh caller.tenant_id (pending_ref fresh body) f ne)
for_tenant-after store tenant caller list_all ne f = refl
for_tenant-after store tenant caller (get_one task_id) ne f = refl
for_tenant-after store tenant caller (cancel_one task_id) ne f =
    for_tenant-cancel_task store tenant caller task_id ne

-- Whatever requests other tenants' callers make, a tenant lists the same tasks, with the same status
-- and in the same order, as long as no new task gets an id that is in use.
pub for_tenant-after_all :
    (store : TaskStore) (tenant : String) (requests : List (Caller × TaskRequest))
    → All (λ r. r.0.tenant_id ≢ tenant) requests
    → AllFresh store requests
    → for_tenant (after_all store requests) tenant ≡ for_tenant store tenant
unfolding after_all
for_tenant-after_all store tenant [] ne f = refl
for_tenant-after_all store tenant ((caller, request) ∷ rest) ne f =
    for_tenant-after_all (after caller store request) tenant rest ne.1 f.1
    ∙ for_tenant-after store tenant caller request ne.0 f.0

-- A caller who may invoke the agent creates a task, and then gets it back as it was returned, pending;
-- once the caller has cancelled it, it comes back cancelled.
create-get-cancel :
    (store : TaskStore) (caller : Caller) (fresh : String) (body : TaskCreateRequest)
    → authorize caller body.agent "invoke" ≡ ok tt
    → let made = create_task (bound_of caller) caller store fresh body in
      let cancelled = cancel_task (bound_of caller) made.1 fresh in
      (get_task (bound_of caller) made.1 fresh ≡ made.0)
      × (get_task (bound_of caller) cancelled.1 fresh ≡ cancelled.0)
      × (cancelled.0
          ≡ ok (record {
            id = fresh;
            status = "cancelled";
            agent = body.agent;
            session_id = body.session_id;
          }))
unfolding create_task create get_task cancel_task guarded_ref current_tenant_id
create-get-cancel store caller fresh body may =
    grind (arith, get-put_self {0}, eq_refl caller.tenant_id, may)
