-- ===== src/Tenancy.antt =====
-- agentship/tenancy.py: the tenant that is bound for a request. The contextvar is passed explicitly:
-- `none` is unbound.
use agent_ship.Prelude.{String, Option, none, some, ◌==◌, if◌then◌else◌}
use agent_ship.Errors.{Result, ok, raise, agent_ship_error, tenant_violation, ◌>>=◌}
use agent_ship.Auth.Caller.{Caller}

pub record TenantContext : Type 0 where
  pub tenant_id : String
  pub user_id : String

abbrev pub Bound : Type 0
Bound = Option TenantContext

unfoldable current_tenant : Bound → Result TenantContext
current_tenant none = raise agent_ship_error
current_tenant (some context) = ok context

unfoldable pub current_tenant_id : Bound → Result String
unfolding current_tenant
current_tenant_id bound = do context ← current_tenant bound; ok context.tenant_id

unfoldable pub guard_tenant : Bound → String → Result (Unit {0})
unfolding current_tenant_id
guard_tenant bound owner = do
  acting ← current_tenant_id bound
  if owner == acting then ok tt else raise (tenant_violation acting owner)

-- `with TenantScope(caller): body`, for a body that reads and may rebind the contextvar: what it
-- returns, and the binding after the block.
unfoldable tenant_scope : {A : Type 0} → Caller → (Bound → A × Bound) → Bound → A × Bound
tenant_scope caller body bound =
    let inside : TenantContext = record {
      tenant_id = caller.tenant_id;
      user_id = caller.user_id;
    } in
    ((body (some inside)).0, bound)
