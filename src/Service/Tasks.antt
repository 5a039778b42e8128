-- ===== src/Service/Tasks.antt =====
-- agentship_service/routers/tasks.py: the task store, and the routes on it.
mod Views
pub mod Isolation
pub mod Existence
use agent_ship.Prelude.{
  ℕ, String, Bool, true, false, Option, none, some, List, [], ◌∷◌, map, ◌==◌, if◌then◌else◌, keep,
}
use agent_ship.Dict.{Dict, get, put, values}
use agent_ship.Errors.{Error, Result, ok, raise, http_exception, ◌>>=◌, ◌>>◌}
use agent_ship.Auth.Caller.{Caller}
use agent_ship.Auth.Scopes.{authorize}
use agent_ship.Tenancy.{Bound, TenantContext, current_tenant_id, guard_tenant}

pub record TaskRef : Type 0 where
  pub id : String
  pub status : String
  pub agent : String
  pub session_id : Option String

-- Each entry is the owning tenant and the task.
abbrev pub TaskStore : Type 0
TaskStore = Dict (String × TaskRef)

unfoldable pub create : TaskStore → String → TaskRef → TaskStore
create store tenant_id ref = put store ref.id (tenant_id, ref)

unfoldable owner_and_ref : TaskStore → String → Result (String × TaskRef)
owner_and_ref store task_id = elim (get store task_id) [
  | none ↦ raise (http_exception 404)
  | some entry ↦ ok entry
]

-- [ref for owner, ref in store.values() if owner == tenant_id]
unfoldable pub for_tenant : TaskStore → String → List TaskRef
for_tenant store tenant_id = map (λ e. e.1) (keep (λ e. e.0 == tenant_id) (values store))

unfoldable pub guarded_ref : Bound → TaskStore → String → Result TaskRef
unfolding owner_and_ref guard_tenant
guarded_ref bound store task_id = do
  entry ← owner_and_ref store task_id
  guard_tenant bound entry.0
  ok entry.1

pub record TaskCreateRequest : Type 0 where
  pub agent : String
  pub session_id : Option String

-- The routes, with the store that each leaves. `fresh` is the id that `uuid4` mints.
unfoldable pub create_task :
    Bound → Caller → TaskStore → String → TaskCreateRequest → Result TaskRef × TaskStore
create_task bound caller store fresh body =
    let ref : TaskRef = record {
      id = fresh;
      status = "pending";
      agent = body.agent;
      session_id = body.session_id;
    } in
    elim (authorize caller body.agent "invoke" >> current_tenant_id bound) [
      | raise e ↦ (raise e, store)
      | ok tenant ↦ (ok ref, create store tenant ref)
    ]

unfoldable list_tasks : Bound → TaskStore → Result (List TaskRef)
list_tasks bound store = do tenant ← current_tenant_id bound; ok (for_tenant store tenant)

unfoldable pub get_task : Bound → TaskStore → String → Result TaskRef
get_task = guarded_ref

-- `ref.status = "cancelled"` writes to the object that the store holds.
unfoldable pub cancel_task : Bound → TaskStore → String → Result TaskRef × TaskStore
unfolding guarded_ref owner_and_ref
cancel_task bound store task_id = elim (guarded_ref bound store task_id) [
  | raise e ↦ (raise e, store)
  | ok ref ↦
      let ref' : TaskRef = record ref { status = "cancelled" } in
      (
        ok ref',
        elim (owner_and_ref store task_id) [
          | raise e ↦ store
          | ok entry ↦ put store task_id (entry.0, ref')
        ],
      )
]
