-- ===== src/Tools/Approval.antt =====
-- Calls of `run_tool` across approvals and deaths of the process.
use mathlib.Core.Bool.{false≢true}
use agent_ship.Prelude.{
  Bool, any, ◌&&◌, not, if◌then◌else◌, ℕ, zero, suc, ◌≤◌, String, ◌≡◌, refl, sym, ap, subst, ◌∙◌,
  ◌⊎◌, inl, inr, Bool, true, false, none, List, [], ◌∷◌, arith, ◌==◌, Bool-cases,
}
use agent_ship.Context.{RunContext}
use agent_ship.Ledger.Entry.{IdempotencyLedger}
use agent_ship.Ledger.CallOnce.{Reply, answer, failure, Outcome, World, reply as outcome_of}
use agent_ship.Ledger.AtMostOnce.{
  count, Attempt, attempt, IsGuarded, attempt-IsGuarded, attempt-count_other,
}
use agent_ship.Tools.{
  BoundTool, Decision, undecided, approved, rejected, seen, invocation, key_of, plainly, run_tool,
}

-- One call by the model, in a process that lives for `steps` steps, with what the human has said by then.
pub record Call (Args : Type 0) : Type 0 where
  pub ctx : RunContext
  pub site : String
  pub tool : BoundTool Args
  pub decision : Decision
  pub steps : ℕ

abbrev is_approved : Decision → Bool
is_approved approved = true
is_approved _ = false

bounded :
    (confirm granted : Bool) (n : ℕ)
    → n ≤ 1
    → (confirm ≡ true → granted ≡ false → n ≡ 0)
    → n ≤ (if confirm && not granted then 0 else 1)
bounded true false n le never = omega (arith, never refl refl)
bounded true true n le never = le
bounded false granted n le never = le

module _ {Args : Type 0} (L : IdempotencyLedger String) (canonical_json : Args → String)
    (digest : String → String) (confirm_writes : Bool) where
  abbrev call_key : Call Args → String
  call_key c = key_of L canonical_json digest c.ctx c.site c.tool

  -- the world that a call leaves
  pub call : World L.Ledger → Call Args → World L.Ledger
  call w c =
      (run_tool L canonical_json digest confirm_writes c.decision c.ctx c.site c.tool
        (record w { steps = c.steps })).1

  unfoldable pub calls : World L.Ledger → List (Call Args) → World L.Ledger
  unfolding call
  calls w [] = w
  calls w (c ∷ rest) = calls (call w c) rest

  attempt_of : Call Args → Attempt String
  attempt_of c = record {
    key = call_key c;
    fn = invocation c.tool;
    idempotent = false;
    steps = c.steps;
  }

  -- Nothing has happened but that steps went by.
  abbrev Idle : World L.Ledger → World L.Ledger → Type 0
  Idle w w' = (w'.ledger ≡ w.ledger) × (w'.fired ≡ w.fired)

  abbrev IsAllowed : Call Args → Type 0
  IsAllowed c = confirm_writes ≡ true → c.decision ≡ approved

  seen-world : {W : Type 0} (tool : BoundTool Args) (r : Outcome String × W) → (seen tool r).1 ≡ r.1
  seen-world tool (Outcome.returned text, w) = refl
  seen-world tool (Outcome.raised, w) = refl
  seen-world tool (Outcome.died, w) = refl

  reply-Idle : (r : Reply String) (w : World L.Ledger) → Idle w (outcome_of r w).1
  reply-Idle (answer text) w = (refl, refl)
  reply-Idle failure w = (refl, refl)

  plainly-Idle :
      (tool : BoundTool Args) (w : World L.Ledger) (n : ℕ)
      → Idle w (plainly L canonical_json digest tool (record w { steps = n })).1
  plainly-Idle tool w zero = (refl, refl)
  plainly-Idle tool w (suc n) = reply-Idle tool.reply (record w { steps = n })

  -- A call of a tool leaves the ledger as it was, or is allowed and leaves what call_once leaves.
  run_tool-cases :
      (side_effecting : Bool) (decision : Decision) (w : World L.Ledger) (c : Call Args)
      → c.tool.side_effecting ≡ side_effecting
      → c.decision ≡ decision
      → Idle w (call w c) ⊎ (IsAllowed c × (call w c ≡ attempt L w (attempt_of c)))
  unfolding call run_tool attempt attempt_of
  run_tool-cases false decision w c e d = inl (
      rw e (
        rw
          (seen-world c.tool
            (plainly L canonical_json digest c.tool (record w { steps = c.steps })))
          (plainly-Idle c.tool w c.steps)))
  run_tool-cases true undecided w c e d = elim (Bool-cases confirm_writes) [
    | inl q ↦ inl (rw (e, q, d) (refl, refl))
    | inr q ↦ inr ((λ t. absurd (false≢true (sym q ∙ t))), rw (e, q) (seen-world c.tool _))
  ]
  run_tool-cases true rejected w c e d = elim (Bool-cases confirm_writes) [
    | inl q ↦ inl (rw (e, q, d) (refl, refl))
    | inr q ↦ inr ((λ t. absurd (false≢true (sym q ∙ t))), rw (e, q) (seen-world c.tool _))
  ]
  run_tool-cases true approved w c e d = elim (Bool-cases confirm_writes) [
    | inl q ↦ inr ((λ t. d), rw (e, q, d) (seen-world c.tool _))
    | inr q ↦ inr ((λ t. absurd (false≢true (sym q ∙ t))), rw (e, q) (seen-world c.tool _))
  ]

  call-IsGuarded :
      (k : String) (w : World L.Ledger) (c : Call Args) → IsGuarded L k w → IsGuarded L k (call w c)
  unfolding attempt_of
  call-IsGuarded k w c g = elim (run_tool-cases c.tool.side_effecting c.decision w c refl refl) [
    | inl (l, f) ↦ record {
      once = rw f g.once;
      logged = λ h. ap (count k) f ∙ g.logged (ap (λ x. L.lookup x k) (sym l) ∙ h);
    }
    | inr (allowed, e) ↦
        subst (IsGuarded L k) (sym e) (attempt-IsGuarded L k w (attempt_of c) (λ _. refl) g)
  ]

  calls-IsGuarded :
      (k : String) (w : World L.Ledger) (cs : List (Call Args))
      → IsGuarded L k w
      → IsGuarded L k (calls w cs)
  unfolding calls
  calls-IsGuarded k w [] g = g
  calls-IsGuarded k w (c ∷ cs) g = calls-IsGuarded k (call w c) cs (call-IsGuarded k w c g)

  -- The human has approved this call, at this key.
  abbrev approves : String → Call Args → Bool
  approves k c = call_key c == k && is_approved c.decision

  call-count :
      (k : String) (w : World L.Ledger) (c : Call Args)
      → confirm_writes ≡ true
      → approves k c ≡ false
      → count k (call w c).fired ≡ count k w.fired
  unfolding attempt_of
  call-count k w c confirm never =
      elim (run_tool-cases c.tool.side_effecting c.decision w c refl refl) [
        | inl (l, f) ↦ ap (count k) f
        | inr (allowed, e) ↦
            let granted : is_approved c.decision ≡ true = ap is_approved (allowed confirm) in
            let other : (call_key c == k) ≡ false = ground (arith, never, granted) in
            ap (λ (x : World L.Ledger). count k x.fired) e
            ∙ attempt-count_other L k w (call_key c) (invocation c.tool) c.steps other
      ]

  calls-count :
      (k : String) (w : World L.Ledger) (cs : List (Call Args))
      → confirm_writes ≡ true
      → any (approves k) cs ≡ false
      → count k (calls w cs).fired ≡ count k w.fired
  unfolding calls
  calls-count k w [] confirm never = refl
  calls-count k w (c ∷ cs) confirm never =
      calls-count k (call w c) cs confirm (ground (arith, never))
      ∙ call-count k w c confirm (ground (arith, never))

  -- Take a key that the ledger has no entry for and whose side effect has not happened. Whatever calls
  -- of tools follow, each in a process that may die anywhere, whatever the tools answer and the human
  -- says: the side effect happens at most once, and, if writes are to be confirmed, not at all unless a
  -- call at the key was approved.
  pub calls_fire_once_approved :
      (k : String) (w : World L.Ledger) (cs : List (Call Args))
      → L.lookup w.ledger k ≡ none
      → count k w.fired ≡ 0
      → count k (calls w cs).fired ≤ (if confirm_writes && not (any (approves k) cs) then 0 else 1)
  calls_fire_once_approved k w cs unseen unfired =
      let once =
        (calls-IsGuarded k w cs (record { once = omega arith; logged = λ _. unfired })).once in
      bounded confirm_writes (any (approves k) cs) _ once
        (λ confirm never. calls-count k w cs confirm never ∙ unfired)
