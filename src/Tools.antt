-- ===== src/Tools.antt =====
-- agentship_langgraph/tools.py: a tool as the model calls it, through approval and the ledger.
pub mod Approval
pub mod Calculator
pub mod HttpRequest
use Prim.Native.String.{◌++◌ as ◌<>◌}
use Prim.Native.Char.{code}
use agent_ship.Prelude.{
  ℕ, String, Bool, true, false, Option, none, some, List, [], ◌∷◌, map, not, eqb, ◌==◌,
  if◌then◌else◌, keep,
}
use agent_ship.Text.{split_at}
use agent_ship.Engine.{first_of}
use agent_ship.Context.{RunContext, conversation_key}
use agent_ship.Ledger.Entry.{IdempotencyLedger}
use agent_ship.Ledger.CallOnce.{
  Reply, answer, Tool, Outcome, returned, raised, died, World, step, reply as outcome_of, call_once,
}
use agent_ship.Ledger.Key.{idem_key}

abbrev is_bar : ℕ → Bool
is_bar c = eqb c b'|'

abbrev is_colon : ℕ → Bool
is_colon c = eqb c b':'

-- "|".join(pieces)
unfoldable bar_joined : List String → String
bar_joined [] = ""
bar_joined (piece ∷ []) = piece
bar_joined (piece ∷ next ∷ pieces) = piece <> ("|" <> bar_joined (next ∷ pieces))

-- the node path: each segment of the namespace without its task id
unfoldable node_path : String → String
unfolding split_at bar_joined
node_path namespace = bar_joined (
    map (λ segment. first_of (split_at is_colon segment))
      (keep (λ segment. not (segment == "")) (split_at is_bar namespace)))

abbrev pub or_empty : Option String → String
or_empty none = ""
or_empty (some s) = s

-- `_call_site`, of what LangGraph says of a call: its namespace, its step and the model's call id
unfoldable call_site : String → Option String → Option String → String
unfolding node_path
call_site namespace step_number call_id =
    "tool|" <> (node_path namespace <> ("|" <> (or_empty step_number <> ("|" <> or_empty call_id))))

-- A tool with the arguments of one call: what a run of it answers, with the text of an exception.
pub record BoundTool (Args : Type 0) : Type 0 where
  pub name : String
  pub side_effecting : Bool
  pub args : Args
  pub reply : Reply String
  pub exception : String

-- What the human has said of a pending write: `interrupt` pauses the turn until there is an answer.
pub data Decision : Type 0 where
  undecided approved rejected : Decision

-- What becomes of a call: the model reads a text, the turn pauses, or the process dies.
pub data Seen : Type 0 where
  told : String → Seen
  paused lost : Seen

module _ {Args : Type 0} where
  -- tool_error_message; `exception` is the type's name with the message
  abbrev tool_error_message : BoundTool Args → String
  tool_error_message tool = "tool '" <> (tool.name <> ("' failed: " <> tool.exception))

  abbrev pub rejection : BoundTool Args → String
  rejection tool =
      "the write to '" <> (tool.name <> "' was rejected by the human and was not executed")

  -- _ToolInvocation: a pending write is not run again
  abbrev pub invocation : BoundTool Args → Tool String
  invocation tool = record {
    call_reply = tool.reply;
    verify_reply =
        answer
          ("(idempotency) a prior '" <> (tool.name <> "' call may have completed; not re-run"));
  }

  abbrev pub seen : {W : Type 0} → BoundTool Args → Outcome String × W → Seen × W
  seen tool (returned text, w) = (told text, w)
  seen tool (raised, w) = (told (tool_error_message tool), w)
  seen tool (died, w) = (lost, w)

  module _ (L : IdempotencyLedger String) (canonical_json : Args → String)
      (digest : String → String) where
    -- idem_key(ctx.conversation_key, _call_site(), tool.name, kwargs)
    abbrev pub key_of : RunContext → String → BoundTool Args → String
    key_of ctx site tool =
        idem_key canonical_json digest (conversation_key ctx) site tool.name tool.args

    -- a tool without side effects: one step, no ledger
    abbrev pub plainly : BoundTool Args → World L.Ledger → Outcome String × World L.Ledger
    plainly tool = step (outcome_of tool.reply)

    abbrev guarded : RunContext → String → BoundTool Args → World L.Ledger → Seen × World L.Ledger
    guarded ctx site tool w =
        seen tool (call_once L (key_of ctx site tool) (invocation tool) false w)

    -- `_run` of to_langchain_tool
    unfoldable pub run_tool :
        Bool
        → Decision
        → RunContext
        → String
        → BoundTool Args
        → World L.Ledger
        → Seen × World L.Ledger
    unfolding call_once idem_key conversation_key
    run_tool confirm_writes decision ctx site tool w =
        if not tool.side_effecting
        then seen tool (plainly tool w)
        else if confirm_writes
        then elim decision [
          | undecided ↦ (paused, w)
          | rejected ↦ (told (rejection tool), w)
          | approved ↦ guarded ctx site tool w
        ]
        else guarded ctx site tool w
