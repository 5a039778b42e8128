-- ===== src/Context/Keys.antt =====
-- Which turns share a conversation.
use Prim.Native.String.{◌++◌ as ◌<>◌}
use text.Mathlib.TextLemmas.{append_assoc}
use agent_ship.Prelude.{String, ◌≡◌, refl, true}
use agent_ship.Text.{is_slash, lacks}
use agent_ship.Text.Separated.{separated-injective}
use agent_ship.Context.{RunContext, conversation_key}

-- If no tenant and no agent has a slash in its name, two turns share a conversation only if tenant,
-- agent and session are the same.
conversation_key-injective :
    (ctx ctx' : RunContext)
    → lacks is_slash ctx.caller.tenant_id ≡ true
    → lacks is_slash ctx'.caller.tenant_id ≡ true
    → lacks is_slash ctx.agent_name ≡ true
    → lacks is_slash ctx'.agent_name ≡ true
    → conversation_key ctx ≡ conversation_key ctx'
    → (ctx.caller.tenant_id ≡ ctx'.caller.tenant_id)
      × (ctx.agent_name ≡ ctx'.agent_name)
      × (ctx.session_id ≡ ctx'.session_id)
unfolding conversation_key
conversation_key-injective ctx ctx' lt lt' la la' e =
    let (tenants, rest) =
      separated-injective is_slash "/" ctx.caller.tenant_id ctx'.caller.tenant_id _ _ refl lt lt'
        e in
    let (agents, sessions) =
      separated-injective is_slash "/" ctx.agent_name ctx'.agent_name _ _ refl la la' rest in
    (tenants, agents, sessions)

-- Where names may have a slash, tenants are not kept apart: a tenant whose id ends in a slash and a
-- word shares every conversation of an agent with the tenant of the id before the slash and the agent
-- that the word is put in front of.
conversation_key_shared :
    (ctx ctx' : RunContext) (tenant word agent : String)
    → ctx.caller.tenant_id ≡ tenant <> ("/" <> word)
    → ctx'.caller.tenant_id ≡ tenant
    → ctx.agent_name ≡ agent
    → ctx'.agent_name ≡ word <> ("/" <> agent)
    → ctx.session_id ≡ ctx'.session_id
    → conversation_key ctx ≡ conversation_key ctx'
unfolding conversation_key
conversation_key_shared ctx ctx' tenant word agent t t' a a' s =
    rw (t, t', a, a', s) (simp append_assoc refl)
