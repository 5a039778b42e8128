-- ===== src/LangGraph/Turns/Resuming.antt =====
-- Which conversation a resume token continues.
use Prim.Native.Char.{Char}
use Prim.Native.String.{◌++◌ as ◌<>◌}
use text.Mathlib.TextLemmas.{nil-append, cons-append}
use agent_ship.Text.Separated.{single-append}
use agent_ship.Prelude.{
  String, ◌≡◌, refl, Bool, true, false, Option, none, some, List, not, ◌==◌, eq_iff, if◌then◌else◌,
  Bool-cases, inl, inr,
}
use agent_ship.Spec.{checkpoint}
use agent_ship.Engine.{same_durability}
use agent_ship.Context.{RunContext, conversation_key}
use agent_ship.Errors.{capability_error, resume_error, thread_busy_error}
use agent_ship.Json.{Json, at}
use agent_ship.LangGraph.Message.{Message}
use agent_ship.LangGraph.Compiled.{
  CompiledAgent, ResumeToken, mint_token, initial_messages, engine_name,
}
use agent_ship.LangGraph.Turns.{
  Graph, Asked, answered, failed, State, StateSnapshot, Reply, result, refused, raised, result_of,
  last_of, turn_messages, has_history, finished, minted, finalize, invoke_and_finalize, run, resume,
  resume_from, resume_input, claims_another,
}
use agent_ship.LangGraph.Turns.Memory.{Accumulates, finalize-saver}

-- the token that a client is given
abbrev token_of : Reply → Option ResumeToken
token_of (result r) = r.resume_token
token_of (refused error) = none
token_of (raised exc) = none

-- A token of this thread, if there is one.
abbrev Minted : String → Option ResumeToken → Type 0
Minted thread_id none = Unit
Minted thread_id (some token) =
    (checkpoint_id : Option String) × (interrupted : Bool) × (token
      ≡ mint_token thread_id checkpoint_id interrupted)

finished-Minted :
    (thread_id : String) (token : Option ResumeToken) (last : Option Message)
    → Minted thread_id token
    → Minted thread_id (token_of (finished token last))
finished-Minted thread_id token none h = tt
finished-Minted thread_id token (some m) h = h

result_of-Minted :
    (thread_id : String) (state : State) (token : Option ResumeToken) (payload : Option Json)
    → Minted thread_id token
    → Minted thread_id (token_of (result_of state token payload))
unfolding result_of
result_of-Minted thread_id state token (some payload) h = h
result_of-Minted thread_id state token none h =
    finished-Minted thread_id token (last_of state.messages_of) h

cons-ne : (c : Char) (s : String) → (String.◌∷◌ c s == "") ≡ false
cons-ne c s = elim (Bool-cases (String.◌∷◌ c s == "")) [
  | inr e ↦ e
  | inl e ↦ let same : String.◌∷◌ c s ≡ "" = (eq_iff _ _).0 e in cc same
]

nonempty : (s t : String) → (s <> ("/" <> t) == "") ≡ false
nonempty String.[] t = rw (nil-append ("/" <> t), single-append "/" t) (cons-ne "/" t)
nonempty (String.◌∷◌ c s) t = rw (cons-append c s ("/" <> t)) (cons-ne c _)

-- A token claims another thread than the caller's exactly if it was minted for another.
claims_another-mint_token :
    (t u : String) (checkpoint_id : Option String) (interrupted : Bool)
    → (t == "") ≡ false
    → claims_another (mint_token t checkpoint_id interrupted) u ≡ not (t == u)
unfolding mint_token at
claims_another-mint_token t u checkpoint_id interrupted h = rw h refl

by_thread :
    {A : Type 0} (same : Bool) (there other : A)
    → (if not same then other else there) ≡ (if same then there else other)
by_thread true there other = refl
by_thread false there other = refl

module _ {Saver : Type 0} (g : Graph Saver) (lower repr : String → String) where
  minted-Minted :
      (thread_id : String) (interrupted : Bool) (asked : Asked StateSnapshot) (state : State)
      (payload : Option Json)
      → Minted thread_id
          (token_of (minted g thread_id interrupted asked (λ token. result_of state token payload)))
  minted-Minted thread_id interrupted (failed exc) state payload = tt
  minted-Minted thread_id interrupted (answered s) state payload =
      result_of-Minted thread_id state _ payload (s.checkpoint_id, interrupted, refl)

  finalize-Minted :
      (thread_id model_id : String) (durable : Bool) (answer : Asked State × Saver)
      → Minted thread_id (token_of (finalize g lower repr thread_id model_id durable answer).0)
  finalize-Minted thread_id model_id durable (failed exc, saver) = tt
  finalize-Minted thread_id model_id true (answered state, saver) =
      minted-Minted thread_id _ (g.aget_state saver thread_id) state _
  finalize-Minted thread_id model_id false (answered state, saver) =
      result_of-Minted thread_id state none _ tt

  run-Minted :
      (compiled : CompiledAgent) (text : String) (ctx : RunContext) (saver : Saver)
      → Minted (conversation_key ctx) (token_of (run g lower repr compiled text ctx saver).0)
  unfolding run invoke_and_finalize
  run-Minted compiled text ctx saver =
      finalize-Minted (conversation_key ctx) compiled.model_id
        (same_durability compiled.durability checkpoint)
        (g.ainvoke saver (conversation_key ctx) (
          turn_messages
            (initial_messages compiled text (has_history g saver (conversation_key ctx)))))

  resume-Minted :
      (compiled : CompiledAgent) (token : ResumeToken) (minting asking : RunContext) (value : Json)
      (saver : Saver)
      → Minted (conversation_key minting) (some token)
      → resume g lower repr compiled token asking value false saver ≡ (
          if conversation_key minting == conversation_key asking
          then resume_from g lower repr value
              (conversation_key asking)
              compiled.model_id
              saver
              (g.aget_state saver (conversation_key asking))
          else (refused resume_error, saver))
  unfolding resume
  resume-Minted compiled token minting asking value saver (checkpoint_id, interrupted, e) =
      rw
        (
          e,
          claims_another-mint_token (conversation_key minting) (conversation_key asking)
              checkpoint_id interrupted (nonempty minting.caller.tenant_id _),
        )
        (by_thread (conversation_key minting == conversation_key asking) _ _)

-- A token that `run` hands out is worth the conversation of that run, and no other: with it the caller
-- resumes from the checkpoint of that thread, if their tenant, agent and session make its key and the lock
-- is free; anyone whose key is another is refused, and nothing is touched.
pub minted_token_resumes :
    {Saver : Type 0} (g : Graph Saver) (lower repr : String → String) (compiled : CompiledAgent)
    (text : String) (minting asking : RunContext) (value : Json) (token : ResumeToken)
    (saver later : Saver)
    → token_of (run g lower repr compiled text minting saver).0 ≡ some token
    → resume g lower repr compiled token asking value false later ≡ (
        if conversation_key minting == conversation_key asking
        then resume_from g lower repr value
            (conversation_key asking)
            compiled.model_id
            later
            (g.aget_state later (conversation_key asking))
        else (refused resume_error, later))
minted_token_resumes g lower repr compiled text minting asking value token saver later e =
    resume-Minted g lower repr compiled token minting asking value later
      (rw e at (run-Minted g lower repr compiled text minting saver))

module _ {Saver : Type 0} (g : Graph Saver) (conversation : Saver → String → Option (List Message))
    (law : Accumulates g conversation) (lower repr : String → String) where
  abbrev Kept : Saver → String → Reply × Saver → Type 0
  Kept saver u outcome = conversation outcome.1 u ≡ conversation saver u

  Kept-if :
      (test : Bool) (saver : Saver) (u : String) (a b : Reply × Saver)
      → Kept saver u a
      → Kept saver u b
      → Kept saver u (if test then a else b)
  Kept-if true saver u a b h h' = h
  Kept-if false saver u a b h h' = h'

  resume_from-Kept :
      (value : Json) (t model_id u : String) (saver : Saver) (asked : Asked StateSnapshot)
      → (t == u) ≡ false
      → Kept saver u (resume_from g lower repr value t model_id saver asked)
  unfolding invoke_and_finalize
  resume_from-Kept value t model_id u saver (failed exc) h = refl
  resume_from-Kept value t model_id u saver (answered existing) h =
      elim existing.created_at
        as (λ created. Kept saver u (elim created [
          | none ↦ (refused resume_error, saver)
          | some time ↦ invoke_and_finalize g lower repr (resume_input value) t model_id true saver
        ])) [
          | none ↦ refl
          | some time ↦
              rw
                (finalize-saver g lower repr t model_id true
                  (g.ainvoke saver t (resume_input value)))
                (law.invoked_elsewhere saver t u (resume_input value) h)
        ]

  -- Whatever token a caller sends, `resume` leaves every conversation as it was but the one of the caller's
  -- own tenant, agent and session.
  pub resume_elsewhere :
      (compiled : CompiledAgent) (token : ResumeToken) (ctx : RunContext) (value : Json)
      (owned : Bool) (saver : Saver) (u : String)
      → (conversation_key ctx == u) ≡ false
      → conversation (resume g lower repr compiled token ctx value owned saver).1 u
        ≡ conversation saver u
  unfolding resume
  resume_elsewhere compiled token ctx value owned saver u h =
      let t = conversation_key ctx in
      let from = resume_from g lower repr value t compiled.model_id saver (g.aget_state saver t) in
      let locked =
        Kept-if owned saver u (refused thread_busy_error, saver) from refl
          (resume_from-Kept value t compiled.model_id u saver (g.aget_state saver t) h) in
      let claimed =
        Kept-if (claims_another token t) saver u (refused resume_error, saver) _ refl locked in
      Kept-if (not (token.engine == engine_name)) saver u (refused capability_error, saver) _ refl
        claimed
