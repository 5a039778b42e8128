-- ===== src/Service/Responses/Stamped.antt =====
-- The headers of the responses that leave middleware/headers.py and fallback.py.
use agent_ship.Prelude.{
  ℕ, String, ◌≡◌, refl, sym, ap, subst, ◌∙◌, inl, inr, Bool, true, false, Option, none, some, List,
  [], ◌∷◌, ◌++◌, ◌||◌, not, ◌==◌, if◌then◌else◌, elem, keep, any, All, arith, eq_iff, eq_refl,
  Bool-cases,
}
use agent_ship.Text.{lacks}
use agent_ship.Dict.{Dict, keys}
use agent_ship.Dict.Named.{elem-append}
use agent_ship.Service.Problem.{Problem}
use agent_ship.Service.Responses.{
  Message, response_start, response_body, Run, sends, returns, raises, is_cancelled, Outcome,
  returned, raised, cancelled, is_raised, is_start, security_headers, is_beyond_ascii, stamp,
  trace_id_of, send_problem, problem_start, internal_error, watched, respond,
}

-- A message that starts a response has every one of the extra headers, and ends in the trace id.
abbrev pub IsStamped : Dict String → String → Message → Type 0
IsStamped extra trace_id (response_body content) = Unit
IsStamped extra trace_id (response_start status headers) =
    All (λ e. elem e.0 (keys headers) ≡ true) extra
    × ((before : Dict String) × (headers ≡ before ++ ("x-trace-id", trace_id) ∷ []))

elem-keep :
    (existing : List String) (extra : Dict String) (name : String)
    → elem name (keys extra) ≡ true
    → (elem name existing || elem name (keys (keep (λ e. not (elem e.0 existing)) extra))) ≡ true
unfolding keys
elem-keep existing [] name h = ground arith
elem-keep existing ((k, v) ∷ extra) name h = elim (Bool-cases (elem k existing)) [
  | inl there ↦ elim (Bool-cases (name == k)) [
    | inl same ↦
        let e : elem name existing ≡ elem k existing =
          ap (λ n. elem n existing) (ground (arith, eq_iff name k, same)) in
        rw (there, e ∙ there) refl
    | inr other ↦ rw there (elem-keep existing extra name (ground (arith, other, h)))
  ]
  | inr absent ↦ elim (Bool-cases (name == k)) [
    | inl same ↦ rw (absent, same) (ground arith)
    | inr other ↦ rw (absent, other) (elem-keep existing extra name (ground (arith, other, h)))
  ]
]

keys-append : (d e : Dict String) → keys (d ++ e) ≡ keys d ++ keys e
unfolding keys
keys-append [] e = refl
keys-append ((k, v) ∷ d) e = ap (λ ks. k ∷ ks) (keys-append d e)

elem-keys-append :
    (name : String) (d e : Dict String)
    → elem name (keys (d ++ e)) ≡ (elem name (keys d) || elem name (keys e))
elem-keys-append name d e = ap (elem name) (keys-append d e) ∙ elem-append name (keys d) (keys e)

-- What holds of every key, entry by entry.
All-keys :
    (extra : Dict String) (P : String → Type 0)
    → ((name : String) → elem name (keys extra) ≡ true → P name)
    → All (λ e. P e.0) extra
unfolding keys
All-keys [] P f = tt
All-keys ((k, v) ∷ extra) P f =
    (f k (rw (eq_refl k) refl), All-keys extra P (λ name h. f name (ground (arith, h))))

module _ (extra : Dict String) (trace_id : String)
    (ascii : lacks is_beyond_ascii trace_id ≡ true) where
  stamp-IsStamped :
      (m : Message)
      → (sent : Message) × (stamp extra trace_id m ≡ some sent)
        × IsStamped extra trace_id sent
        × (is_start sent ≡ is_start m)
  unfolding stamp keys
  stamp-IsStamped (response_body content) = (response_body content, refl, tt, refl)
  stamp-IsStamped (response_start status headers) =
      let missing : Dict String = keep (λ e. not (elem e.0 (keys headers))) extra in
      (
        response_start status (headers ++ missing ++ ("x-trace-id", trace_id) ∷ []),
        rw (stamp, ascii) refl,
        (
          All-keys extra _ (λ name h.
              rw
                (
                  elem-keys-append name (headers ++ missing) (("x-trace-id", trace_id) ∷ []),
                  elem-keys-append name headers missing,
                  elem-keep (keys headers) extra name h,
                )
                refl),
          (headers ++ missing, refl),
        ),
        refl,
      )

  -- With an encodable id, nothing that is sent fails: what is sent is stamped, and an exception leaves
  -- the stack only behind the start of a response.
  record Answered (started : Bool) (r : List Message × Outcome) : Type 0 where
    stamped : All (IsStamped extra trace_id) r.0
    escapes : r.1 ≡ raised → (started || any is_start r.0) ≡ true

  module _ (dumps : String → Problem → String) (size : String → String) where
    abbrev send : Message → Option Message
    send = stamp extra trace_id

    send_problem-Answered : Answered false (send_problem dumps size send trace_id)
    unfolding send_problem
    send_problem-Answered =
        let (first, e, is, st) = stamp-IsStamped (problem_start dumps size trace_id) in
        let (body, e', is', st') =
          stamp-IsStamped (response_body (dumps trace_id internal_error)) in
        let done : send_problem dumps size send trace_id ≡ (first ∷ body ∷ [], returned) =
          rw (send_problem, e, e') refl in
        subst (Answered false) (sym done) (record { stamped = (is, (is', tt)); escapes = λ h. cc })

    after_exception :
        (started : Bool)
        → Answered started (if started then ([], raised) else send_problem dumps size send trace_id)
    after_exception true = record { stamped = tt; escapes = λ h. refl }
    after_exception false = send_problem-Answered

    watched-Answered :
        (started : Bool) (run : Run)
        → Answered started (watched dumps size send trace_id started run)
    unfolding watched
    watched-Answered started returns = record { stamped = tt; escapes = λ h. cc }
    watched-Answered started is_cancelled = record { stamped = tt; escapes = λ h. cc }
    watched-Answered started raises = after_exception started
    watched-Answered started (sends m run) =
        let (sent, e, is, st) = stamp-IsStamped m in
        let rest = watched-Answered (started || is_start m) run in
        let r = watched dumps size send trace_id (started || is_start m) run in
        let done : watched dumps size send trace_id started (sends m run) ≡ (sent ∷ r.0, r.1) =
          rw (watched, e) refl in
        subst (Answered started) (sym done) (record {
          stamped = (is, rest.stamped);
          escapes = λ h. ground (arith, rest.escapes h, st);
        })

module _ (dumps : String → Problem → String) (size : String → String) (extra : Dict String)
    (trace_id : String) (beyond : lacks is_beyond_ascii trace_id ≡ false) where
  no_start :
      (status : ℕ) (headers : Dict String)
      → stamp extra trace_id (response_start status headers) ≡ none
  unfolding stamp
  no_start status headers = rw (stamp, beyond) refl

  no_problem : send_problem dumps size (stamp extra trace_id) trace_id ≡ ([], raised)
  unfolding send_problem
  no_problem = rw (send_problem, no_start 500 _) refl

  nothing_escapes :
      (started : Bool)
      → any is_start
          (if started
            then ([], raised)
            else send_problem dumps size (stamp extra trace_id) trace_id).0
        ≡ false
  nothing_escapes true = refl
  nothing_escapes false = ap (λ (r : List Message × Outcome). any is_start r.0) no_problem

  nothing_starts :
      (started : Bool) (run : Run)
      → any is_start (watched dumps size (stamp extra trace_id) trace_id started run).0 ≡ false
  unfolding watched stamp
  nothing_starts started returns = refl
  nothing_starts started is_cancelled = refl
  nothing_starts started raises = nothing_escapes started
  nothing_starts started (sends (response_body content) run) = nothing_starts (started || false) run
  nothing_starts started (sends (response_start status headers) run) =
      let refused : watched dumps size (stamp extra trace_id) trace_id started
            (sends (response_start status headers) run)
          ≡ (if started || true
              then ([], raised)
              else send_problem dumps size (stamp extra trace_id) trace_id) =
        rw (watched, no_start status headers) refl in
      ap (λ (r : List Message × Outcome). any is_start r.0) refused
      ∙ nothing_escapes (started || true)

only_behind :
    (o : Outcome) (started : Bool)
    → (o ≡ raised → started ≡ true)
    → (not (is_raised o) || started) ≡ true
only_behind returned started h = refl
only_behind cancelled started h = refl
only_behind raised started h = h refl

module _ (dumps : String → Problem → String) (size : String → String) where
  -- If the trace id, which is the request's id or else a fresh one, is ASCII: every response that
  -- starts has the security headers and ends its headers with the trace id, and an exception leaves
  -- the stack only behind the start of a response.
  pub respond-IsStamped :
      (hsts : Bool) (fresh : String) (headers : Dict String) (run : Run)
      → lacks is_beyond_ascii (trace_id_of fresh headers) ≡ true
      → let r = respond dumps size hsts fresh headers run in
        All (IsStamped (security_headers hsts) (trace_id_of fresh headers)) r.0
        × ((not (is_raised r.1) || any is_start r.0) ≡ true)
  unfolding respond
  respond-IsStamped hsts fresh headers run ascii =
      let a =
        watched-Answered (security_headers hsts) (trace_id_of fresh headers) ascii dumps size false
          run in
      (
        a.stamped,
        only_behind _ (any is_start (respond dumps size hsts fresh headers run).0) a.escapes,
      )

  -- If the trace id goes beyond ASCII, the two layers start no response, neither the service's nor their own
  -- for an error, whatever the service does.
  pub respond_beyond_ascii :
      (hsts : Bool) (fresh : String) (headers : Dict String) (run : Run)
      → lacks is_beyond_ascii (trace_id_of fresh headers) ≡ false
      → any is_start (respond dumps size hsts fresh headers run).0 ≡ false
  unfolding respond
  respond_beyond_ascii hsts fresh headers run beyond =
      nothing_starts dumps size (security_headers hsts) (trace_id_of fresh headers) beyond false run
