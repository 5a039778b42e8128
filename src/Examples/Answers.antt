-- ===== src/Examples/Answers.antt =====
-- Responses as they leave the service.
use Prim.Native.String.{◌++◌ as ◌<>◌}
use agent_ship.Prelude.{String, ◌≡◌, refl, true, false, [], ◌∷◌, any, All, not, ◌||◌}
use agent_ship.Text.{lacks}
use agent_ship.Service.Problem.{Problem}
use agent_ship.Service.Responses.{
  response_start, response_body, Run, sends, returns, raises, is_start, is_raised, security_headers,
  respond,
}
use agent_ship.Service.Responses.Stamped.{IsStamped, respond-IsStamped, respond_beyond_ascii}

abbrev dumps : String → Problem → String
dumps trace_id problem = problem.title <> (" " <> trace_id)

abbrev size : String → String
size body = "24"

-- A stream that breaks.
abbrev broken_stream : Run
broken_stream =
    sends (response_start 200 (("x-frame-options", "SAMEORIGIN") ∷ []))
      (sends (response_body "hi") raises)

respond-IsStamped_example :
    All
      (IsStamped (security_headers true) "r1")
      (respond dumps size true "f1" (("x-request-id", "r1") ∷ []) broken_stream).0
    × ((not (is_raised (respond dumps size true "f1" (("x-request-id", "r1") ∷ []) broken_stream).1)
          || any is_start
              (respond dumps size true "f1" (("x-request-id", "r1") ∷ []) broken_stream).0)
        ≡ true)
unfolding respond lacks
respond-IsStamped_example =
    respond-IsStamped dumps size true "f1" (("x-request-id", "r1") ∷ []) broken_stream refl

abbrev answer : Run
answer = sends (response_start 200 []) (sends (response_body "hi") returns)

respond_beyond_ascii_example :
    any is_start (respond dumps size false "f1" (("x-request-id", "ré") ∷ []) answer).0 ≡ false
unfolding respond lacks
respond_beyond_ascii_example =
    respond_beyond_ascii dumps size false "f1" (("x-request-id", "ré") ∷ []) answer refl
