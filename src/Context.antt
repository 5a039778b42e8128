-- ===== src/Context.antt =====
-- agentship/context.py: what is known of a turn, and the keys that its state is filed under. The
-- Caller is in Auth/Caller.
pub mod Keys
use Prim.Native.String.{◌++◌ as ◌<>◌}
use agent_ship.Prelude.{String, Option, none}
use agent_ship.Auth.Caller.{Caller}

pub data RunMode : Type 0 where
  invoke stream : RunMode

-- The ledger of a turn is not read here.
pub record RunContext : Type 0 where
  pub caller : Caller
  pub session_id : String
  pub run_id : String
  pub agent_name : String
  pub mode : RunMode
  pub trace_id : Option String
  pub input_text : String
  pub routed_model : Option String

unfoldable memory_scope : RunContext → String × String
memory_scope ctx = (ctx.caller.tenant_id, ctx.caller.user_id)

unfoldable pub conversation_key : RunContext → String
conversation_key ctx = ctx.caller.tenant_id <> ("/" <> (ctx.agent_name <> ("/" <> ctx.session_id)))
