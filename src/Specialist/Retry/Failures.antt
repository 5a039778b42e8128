-- ===== src/Specialist/Retry/Failures.antt =====
-- Which ways of failing are retried.
use Prim.Native.String.{◌++◌ as ◌<>◌}
use text.Mathlib.TextLemmas.{append_assoc}
use mathlib.Core.Bool.{false≢true}
use text.Mathlib.Text.{starts_with}
use text.Mathlib.TextPositions.{starts_with-append}
use agent_ship.Prelude.{
  ℕ, String, ◌≡◌, sym, subst, Bool-cases, inl, inr, Bool, true, false, List, arith, ◌==◌, ◌&&◌, not,
  eq_iff, elem, if◌then◌else◌,
}
use agent_ship.Specialist.Values.{Values}
use agent_ship.Specialist.Dispatch.{Agents, AgentRef, Run, answered, timed_out, failed, run_safely}
use agent_ship.Specialist.Retry.{classify_error, is_retryable}

-- An answer is not retried. A timeout, and a failure whose text begins like one, is retried if
-- "timeout" is listed, and any other failure with a text if "specialist_error" is. A failure with an
-- empty text is never retried.
abbrev pub retries : {V : Type 0} → List String → Run V → Bool
retries retry_on (answered output) = false
retries retry_on timed_out = elem "timeout" retry_on
retries retry_on (failed message) =
    not (message == "")
    && (if starts_with message "timed out"
        then elem "timeout" retry_on
        else elem "specialist_error" retry_on)

module _ (P : Values) (A : Agents P.Value) (timeout : String) where
  timeout_text : (t : String) → starts_with ("timed out after " <> t) "timed out" ≡ true
  timeout_text t =
      subst (λ x. starts_with x "timed out" ≡ true) (sym (append_assoc "timed out" " after " t))
        (starts_with-append "timed out" (" after " <> t))

  timeout_text-ne : (t : String) → (("timed out after " <> t) == "") ≡ false
  timeout_text-ne t = elim (Bool-cases (("timed out after " <> t) == "")) [
    | inl e ↦ absurd (
        false≢true
          (subst (λ x. starts_with x "timed out" ≡ true) ((eq_iff _ _).0 e) (timeout_text t)))
    | inr e ↦ e
  ]

  -- For every specialist, run and retry policy, the result of running it safely is retryable exactly
  -- if `retries` says so of how the run ended.
  pub is_retryable-run_safely :
      (ref : AgentRef A.Agent) (n : ℕ) (message : String) (retry_on : List String)
      → is_retryable (run_safely P A timeout ref n message) retry_on
        ≡ retries retry_on (A.run ref.agent n message)
  unfolding is_retryable classify_error run_safely
  is_retryable-run_safely ref n message retry_on =
      ground (arith, timeout_text (timeout <> "s"), timeout_text-ne (timeout <> "s"))
