-- ===== src/Examples/Requests.antt =====
-- Requests on the tasks of two tenants.
use mathlib.Core.Bool.{false≢true}
use agent_ship.Prelude.{
  ℕ, ◌+◌, ◌-◌, ◌*◌, ◌≤◌, arith, String, ◌≡◌, ◌≢◌, refl, sym, none, List, [], ◌∷◌, eq_iff,
}
use agent_ship.Dict.{get, put, values}
use agent_ship.Errors.{Error}
use agent_ship.Auth.Caller.{Caller}
use agent_ship.Service.Tasks.{TaskRef, TaskStore, TaskCreateRequest, for_tenant, get_task}
use agent_ship.Service.Tasks.Isolation.{
  TaskRequest, create_one, list_all, cancel_one, bound_of, after_all, for_tenant-after_all,
}
use agent_ship.Service.Tasks.Existence.{refusal, get_task_tells_existence}
use agent_ship.Service.RateLimit.{try_consume, admit}
use agent_ship.Service.RateLimit.Bounds.{passes, passes_bounded}

abbrev bob : Caller
bob = record { tenant_id = "globex"; user_id = "bob"; scopes = "*" ∷ []; auth_method = none }

abbrev acme_task : TaskRef
acme_task = record { id = "t1"; status = "pending"; agent = "desk"; session_id = none }

abbrev tasks : TaskStore
tasks = ("t1", ("acme", acme_task)) ∷ []

abbrev new_task : TaskCreateRequest
new_task = record { agent = "desk"; session_id = none }

abbrev globex_requests : List (Caller × TaskRequest)
globex_requests = (bob, create_one "t2" new_task) ∷ (bob, cancel_one "t1") ∷ (bob, list_all) ∷ []

globex_ne_acme : bob.tenant_id ≢ "acme"
globex_ne_acme e = false≢true ((eq_iff "globex" "acme").1 e)

for_tenant-after_all_example : for_tenant (after_all tasks globex_requests) "acme" ≡ acme_task ∷ []
unfolding get for_tenant values
for_tenant-after_all_example =
    for_tenant-after_all tasks "acme" globex_requests
      (globex_ne_acme, (globex_ne_acme, (globex_ne_acme, tt))) (refl, (tt, (tt, tt)))

abbrev text_of : Error → String
text_of e = "an error"

get_task_tells_existence_example :
    refusal text_of "GET" (get_task (bound_of bob) tasks "t1")
    ≢ refusal text_of "GET" (get_task (bound_of bob) [] "t1")
unfolding get
get_task_tells_existence_example =
    get_task_tells_existence text_of bob tasks [] "t1" {owner = "acme"} {ref = acme_task} refl
      (λ e. globex_ne_acme (sym e)) refl

-- A burst of two, and a token a second: of four requests of one key, three pass.
abbrev burst_requests : List (String × ℕ)
burst_requests = ("ip:a", 0) ∷ ("ip:a", 1) ∷ ("ip:b", 1) ∷ ("ip:a", 2) ∷ ("ip:a", 1500) ∷ []

passes_bounded_example : passes 1000 2000 1 "ip:a" [] burst_requests * 1000 ≤ 2000 + (1500 - 0) * 1
passes_bounded_example =
    passes_bounded 1000 2000 1 "ip:a" 0 burst_requests 1500
      (omega arith, (omega arith, (omega arith, (omega arith, (omega arith, omega arith)))))

passes_burst : passes 1000 2000 1 "ip:a" [] burst_requests ≡ 3
unfolding passes admit try_consume get put
passes_burst = refl
