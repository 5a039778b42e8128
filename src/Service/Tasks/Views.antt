-- ===== src/Service/Tasks/Views.antt =====
-- How a write to the store changes what a tenant lists.
use agent_ship.Prelude.{String, ◌≡◌, ◌≢◌, none, some, [], ◌∷◌, arith, eq_iff}
use agent_ship.Dict.{get, put, values}
use agent_ship.Service.Tasks.{TaskRef, TaskStore, for_tenant}

-- A new entry of another tenant is not listed.
pub for_tenant-put_new :
    (store : TaskStore) (tenant k owner : String) (ref : TaskRef)
    → get store k ≡ none
    → owner ≢ tenant
    → for_tenant (put store k (owner, ref)) tenant ≡ for_tenant store tenant
unfolding for_tenant values get put
for_tenant-put_new [] tenant k owner ref h ne = ground (arith, eq_iff owner tenant)
for_tenant-put_new ((j, e) ∷ store) tenant k owner ref h ne =
    ground (arith, eq_iff owner tenant, for_tenant-put_new store tenant k owner ref)

-- Nor does replacing an entry of another tenant change the list.
pub for_tenant-put_owned :
    (store : TaskStore) (tenant k owner : String) (old new : TaskRef)
    → get store k ≡ some (owner, old)
    → owner ≢ tenant
    → for_tenant (put store k (owner, new)) tenant ≡ for_tenant store tenant
unfolding for_tenant values get put
for_tenant-put_owned [] tenant k owner old new h ne = cc
for_tenant-put_owned ((j, e) ∷ store) tenant k owner old new h ne =
    ground (arith, eq_iff owner tenant, for_tenant-put_owned store tenant k owner old new)
