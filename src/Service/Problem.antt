-- ===== src/Service/Problem.antt =====
-- agentship_service/errors.py: every exception as a problem document.
use agent_ship.Prelude.{ℕ, String, Bool, Option, none, some, ◌||◌, eqb, ◌==◌, if◌then◌else◌}
use agent_ship.Errors.{
  Error, capability_error, thread_busy_error, resume_error, model_error, auth_error,
  tenant_violation, http_exception, request_validation_error, other,
}

-- The fields of a ProblemDetail that the handlers set; the trace id is the request's.
pub record Problem : Type 0 where
  pub status : ℕ
  pub title : String
  pub code : Option String
  pub detail : Option String

abbrev problem : ℕ → String → String → Option String → Problem
problem status title code detail = record {
  status = status;
  title = title;
  code = some code;
  detail = detail;
}

-- _HTTP_CODES.get(status, "http_error")
unfoldable http_code : ℕ → String
http_code status =
    if eqb status 400
    then "bad_request"
    else if eqb status 404
    then "not_found"
    else if eqb status 405
    then "method_not_allowed"
    else if eqb status 409
    then "conflict"
    else if eqb status 413
    then "payload_too_large"
    else if eqb status 415
    then "unsupported_media_type"
    else if eqb status 429
    then "rate_limited"
    else "http_error"

-- _HTTP_STATUS_TITLES.get(status, "Error")
unfoldable http_title : ℕ → String
http_title status =
    if eqb status 400
    then "Bad Request"
    else if eqb status 404
    then "Not Found"
    else if eqb status 405
    then "Method Not Allowed"
    else if eqb status 409
    then "Conflict"
    else if eqb status 413
    then "Payload Too Large"
    else if eqb status 415
    then "Unsupported Media Type"
    else if eqb status 429
    then "Too Many Requests"
    else "Error"

-- request.method in ("GET", "HEAD", "OPTIONS")
abbrev is_safe_method : String → Bool
is_safe_method method = method == "GET" || method == "HEAD" || method == "OPTIONS"

-- `str exc` is the exception's text: for an HTTPException its `detail`, for a validation error the
-- summary of the fields.
module _ (str : Error → String) where
  -- the handler that is registered for the exception's class, or for the nearest of its bases
  unfoldable pub problem_response : String → Error → Problem
  unfolding http_code http_title
  problem_response method (auth_error code) =
      if code == "forbidden"
      then problem 403 "Forbidden" code (some (str (auth_error code)))
      else problem 401 "Unauthorized" code (some (str (auth_error code)))
  problem_response method (tenant_violation acting owner) =
      if is_safe_method method
      then problem 404 "Not Found" "not_found" none
      else problem 403 "Forbidden" "forbidden" none
  problem_response method thread_busy_error =
      problem 409 "Conflict" "thread_busy" (some (str thread_busy_error))
  problem_response method resume_error =
      problem 409 "Conflict" "resume_failed" (some (str resume_error))
  problem_response method capability_error =
      problem 400 "Bad Request" "unsupported" (some (str capability_error))
  problem_response method model_error =
      problem 502 "Bad Gateway" "model_error" (some (str model_error))
  problem_response method (http_exception status_code) =
      problem status_code (http_title status_code) (http_code status_code)
        (some (str (http_exception status_code)))
  problem_response method request_validation_error =
      problem 422 "Unprocessable Entity" "invalid_request" (some (str request_validation_error))
  problem_response method other = problem 500 "Internal Server Error" "internal_error" none
  problem_response method error =
      problem 500 "Internal Server Error" "internal_error" (some (str error))
