-- ===== src/Spec/Coherence.antt =====
-- The validators of a spec: each returns nothing, or raises a SpecError.
use agent_ship.Prelude.{
  ℕ, ◌+◌, Bool, true, false, Option, none, some, List, [], ◌∷◌, ◌&&◌, not, ltb, leb, ◌==◌, truthy,
  if◌then◌else◌,
}
use agent_ship.Dict.{values}
use agent_ship.Errors.{Result, ok, raise, spec_error, ◌>>◌}
use agent_ship.Specialist.Values.{is_empty}
use agent_ship.Spec.{
  ObservabilitySpec, VoiceSpec, A2aExposeSpec, MemberSpec, stdio, streamable_http, McpServerSpec,
  Template, autonomous, AgentSpec,
}

-- if refused: raise SpecError(…)
abbrev pub refuse_if : Bool → Result (Unit {0})
refuse_if refused = if refused then raise spec_error else ok tt

abbrev pub is_some {ℓ} : {A : Type ℓ} → Option A → Bool
is_some none = false
is_some (some a) = true

-- _require_security_when_exposed
unfoldable pub require_security_when_exposed : A2aExposeSpec → Result (Unit {0})
require_security_when_exposed a2a = refuse_if (a2a.expose && is_empty a2a.security)

abbrev to_int : Bool → ℕ
to_int true = 1
to_int false = 0

-- sum(x is not None for x in (self.ref, self.prompt, self.a2a))
abbrev pub ways : MemberSpec → ℕ
ways member =
    to_int (is_some member.ref) + to_int (is_some member.prompt) + to_int (is_some member.a2a)

unfoldable pub check_member_coherence : MemberSpec → Result (Unit {0})
check_member_coherence member = refuse_if (ltb 1 (ways member))

unfoldable pub check_transport_coherence : McpServerSpec → Result (Unit {0})
check_transport_coherence server = elim server.transport [
  | stdio ↦ refuse_if (not (truthy server.command))
  | streamable_http ↦ refuse_if (not (truthy server.url))
]

-- self.template == "autonomous"
abbrev pub is_autonomous : Option Template → Bool
is_autonomous (some autonomous) = true
is_autonomous _ = false

unfoldable pub check_coherence : AgentSpec → Result (Unit {0})
check_coherence spec =
    refuse_if (is_some spec.template && is_some spec.code)
    >> refuse_if (is_autonomous spec.template && not (spec.engine == "langgraph"))

-- Each item of a list is validated, until one is refused.
unfoldable pub check_all : {A : Type 0} → (A → Result (Unit {0})) → List A → Result (Unit {0})
check_all check [] = ok tt
check_all check (x ∷ xs) = check x >> check_all check xs

abbrev pub or_nil {ℓ} : {A : Type ℓ} → Option (List A) → List A
or_nil none = []
or_nil (some xs) = xs

abbrev pub to_list {ℓ} : {A : Type ℓ} → Option A → List A
to_list none = []
to_list (some a) = a ∷ []

-- _ratio_in_range: 0.0 <= value <= 1.0
unfoldable pub ratio_in_range : ObservabilitySpec → Result (Unit {0})
ratio_in_range spec = refuse_if (not (leb spec.sample_ratio 1000000))

abbrev refuse_unless : Option ℕ → (ℕ → Bool) → Result (Unit {0})
refuse_unless none bound = ok tt
refuse_unless (some n) bound = refuse_if (not (bound n))

-- The bounds of VoiceSpec's fields: gt=0.25, le=4.0; ge=100, le=5000; ge=1, le=10; gt=0. A latency budget
-- is bounded by ge=0 only.
unfoldable pub voice_in_bounds : VoiceSpec → Result (Unit {0})
voice_in_bounds voice =
    refuse_unless voice.tts_speed (λ speed. ltb 250 speed && leb speed 4000)
    >> refuse_if (not (leb 100 voice.endpoint_silence_ms && leb voice.endpoint_silence_ms 5000))
    >> refuse_if (not (leb 1 voice.interrupt_min_words && leb voice.interrupt_min_words 10))
    >> refuse_unless voice.max_session_seconds (λ seconds. ltb 0 seconds)

-- The validators of AgentSpec(**raw): those of its nested models, in the order of the fields, then
-- its own. Values of another type and names that are no field are refused before; a negative number,
-- which has no ℕ, is below each of the bounds and refused as well.
unfoldable pub validate : AgentSpec → Result (Unit {0})
unfolding values check_all check_transport_coherence check_member_coherence
    require_security_when_exposed ratio_in_range voice_in_bounds check_coherence
validate spec =
    check_all check_transport_coherence (values (or_nil spec.mcp))
    >> check_all check_member_coherence (or_nil spec.members)
    >> check_all require_security_when_exposed (to_list spec.a2a)
    >> check_all ratio_in_range (to_list spec.observability)
    >> check_all voice_in_bounds (to_list spec.voice)
    >> check_coherence spec
