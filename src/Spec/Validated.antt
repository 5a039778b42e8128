-- ===== src/Spec/Validated.antt =====
-- What the validators promise of a spec.
use agent_ship.Prelude.{
  ℕ, ltb, eqb, String, ◌≡◌, refl, Bool, true, false, Option, none, some, List, [], ◌∷◌, ◌&&◌, ◌||◌,
  not, ◌==◌, truthy, if◌then◌else◌, all, arith,
}
use agent_ship.Dict.{values}
use agent_ship.Errors.{Result, ok, raise, spec_error, ◌>>◌}
use agent_ship.Specialist.Values.{is_empty}
use agent_ship.Spec.{
  ObservabilitySpec, VoiceSpec, A2aExposeSpec, MemberSpec, A2aRemoteSpec, stdio, streamable_http,
  McpServerSpec, AgentSpec,
}
use agent_ship.Spec.Coherence.{
  is_some, is_autonomous, or_nil, to_list, check_all, check_member_coherence,
  check_transport_coherence, require_security_when_exposed, ratio_in_range, voice_in_bounds,
  check_coherence, validate,
}

-- At most one of the three ways is there.
abbrev one_way : Option String → Option String → Option A2aRemoteSpec → Bool
one_way none none a2a = true
one_way none (some p) none = true
one_way (some r) none none = true
one_way _ _ _ = false

abbrev member_is_coherent : MemberSpec → Bool
member_is_coherent m = one_way m.ref m.prompt m.a2a

-- A server has what its transport connects by.
abbrev server_is_coherent : McpServerSpec → Bool
server_is_coherent s = elim s.transport [
  | stdio ↦ truthy s.command
  | streamable_http ↦ truthy s.url
]

-- An exposed agent is never open.
abbrev exposure_is_closed : A2aExposeSpec → Bool
exposure_is_closed a = not a.expose || not (is_empty a.security)

-- A number between two others, both included.
abbrev between : ℕ → ℕ → ℕ → Bool
between lowest highest n = not (ltb n lowest) && not (ltb highest n)

abbrev if_given : (ℕ → Bool) → Option ℕ → Bool
if_given bound none = true
if_given bound (some n) = bound n

-- At most the whole of the traces is kept.
abbrev sampling_is_a_share : ObservabilitySpec → Bool
sampling_is_a_share o = between 0 1000000 o.sample_ratio

abbrev voice_is_bounded : VoiceSpec → Bool
voice_is_bounded v =
    if_given (between 251 4000) v.tts_speed
    && between 100 5000 v.endpoint_silence_ms
    && between 1 10 v.interrupt_min_words
    && if_given (λ seconds. not (eqb seconds 0)) v.max_session_seconds

abbrev body_is_coherent : AgentSpec → Bool
body_is_coherent s =
    (not (is_some s.template) || not (is_some s.code))
    && (not (is_autonomous s.template) || s.engine == "langgraph")

abbrev is_coherent : AgentSpec → Bool
is_coherent s =
    all server_is_coherent (values (or_nil s.mcp))
    && all member_is_coherent (or_nil s.members)
    && all exposure_is_closed (to_list s.a2a)
    && all sampling_is_a_share (to_list s.observability)
    && all voice_is_bounded (to_list s.voice)
    && body_is_coherent s

abbrev pub verdict : Bool → Result (Unit {0})
verdict good = if good then ok tt else raise spec_error

check_all-verdict :
    {A : Type 0} (check : A → Result (Unit {0})) (good : A → Bool) (xs : List A)
    → ((x : A) → check x ≡ verdict (good x))
    → check_all check xs ≡ verdict (all good xs)
unfolding check_all
check_all-verdict check good [] lem = refl
check_all-verdict check good (x ∷ xs) lem =
    ground (arith, lem x, check_all-verdict check good xs lem)

member_verdict : (m : MemberSpec) → check_member_coherence m ≡ verdict (member_is_coherent m)
unfolding check_member_coherence
member_verdict m = ground arith

server_verdict : (s : McpServerSpec) → check_transport_coherence s ≡ verdict (server_is_coherent s)
unfolding check_transport_coherence
server_verdict s = ground arith

exposure_verdict :
    (a : A2aExposeSpec) → require_security_when_exposed a ≡ verdict (exposure_is_closed a)
unfolding require_security_when_exposed
exposure_verdict a = ground arith

sampling_verdict : (o : ObservabilitySpec) → ratio_in_range o ≡ verdict (sampling_is_a_share o)
unfolding ratio_in_range
sampling_verdict o = ground arith

voice_verdict : (v : VoiceSpec) → voice_in_bounds v ≡ verdict (voice_is_bounded v)
unfolding voice_in_bounds
voice_verdict v = ground arith

body_verdict : (s : AgentSpec) → check_coherence s ≡ verdict (body_is_coherent s)
unfolding check_coherence
body_verdict s = ground arith

in_turn :
    (a b c d e f : Bool)
    → (verdict a >> verdict b >> verdict c >> verdict d >> verdict e >> verdict f)
      ≡ verdict (a && b && c && d && e && f)
in_turn false b c d e f = refl
in_turn true false c d e f = refl
in_turn true true false d e f = refl
in_turn true true true false e f = refl
in_turn true true true true false f = refl
in_turn true true true true true f = refl

pub validate-verdict : (spec : AgentSpec) → validate spec ≡ verdict (is_coherent spec)
unfolding validate
validate-verdict spec =
    rw
      (
        check_all-verdict check_transport_coherence server_is_coherent (values (or_nil spec.mcp))
            server_verdict,
        check_all-verdict check_member_coherence member_is_coherent (or_nil spec.members)
            member_verdict,
        check_all-verdict require_security_when_exposed exposure_is_closed (to_list spec.a2a)
            exposure_verdict,
        check_all-verdict ratio_in_range sampling_is_a_share (to_list spec.observability)
            sampling_verdict,
        check_all-verdict voice_in_bounds voice_is_bounded (to_list spec.voice) voice_verdict,
        body_verdict spec,
      )
      (in_turn _ _ _ _ _ _)
