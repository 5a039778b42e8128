-- ===== src/Auth/Identity.antt =====
-- What an accepted request has proved.
use mathlib.Core.Bool.{false≢true}
use agent_ship.Prelude.{
  String, ◌≡◌, ◌≢◌, ◌⊎◌, inl, inr, true, Option, none, some, List, [], ◌∷◌, ◌==◌, elem, arith,
  eq_iff, Bool-cases, Option-cases,
}
use agent_ship.Prelude.Splits.{Split, Split-here, Split-cons, All-trivial}
use agent_ship.Dict.{Dict, get, put, get-put}
use agent_ship.Errors.{ok}
use agent_ship.Auth.Caller.{Caller, Headers}
use agent_ship.Auth.Providers.{
  or_default, KeyEntry, caller_of, add_keys, extract_key, api_key_authenticate, ForwardedHeaders,
  forwarded_authenticate,
}

or_default-ne : (o : Option String) → or_default o "default" ≢ ""
or_default-ne none e = absurd (false≢true ((eq_iff "default" "").1 e))
or_default-ne (some s) e = ground (arith, eq_iff s "", eq_iff "default" "")

-- A forwarded identity is accepted only from a trusted source, and only with a user: then the
-- caller's user is the one that the header names, and neither user nor tenant is empty.
pub forwarded_authenticate_sound :
    (config : ForwardedHeaders) (headers : Headers) {caller : Caller}
    → forwarded_authenticate config headers ≡ ok caller
    → (source : String) × (get headers config.forwarded_by_header ≡ some source)
      × (elem source config.trusted ≡ true)
      × (get headers config.user_header ≡ some caller.user_id)
      × (caller.user_id ≢ "")
      × (caller.tenant_id ≢ "")
unfolding forwarded_authenticate
forwarded_authenticate_sound config headers h =
    elim (Option-cases (get headers config.forwarded_by_header)) [
      | inl e ↦ absurd (ground (arith, e))
      | inr (source, e) ↦ elim (Option-cases (get headers config.user_header)) [
        | inl eu ↦ absurd (ground (arith, e, eu))
        | inr (user, eu) ↦ (
          source,
          e,
          ground (arith, eu),
          ground (arith, eu),
          ground (arith, eu, eq_iff user ""),
          ground (
            arith,
            eu,
            Option-cases (get headers config.tenant_header),
            or_default-ne (get headers config.tenant_header),
          ),
        )
      ]
    ]

abbrev pub IsEntryOf : KeyEntry → List KeyEntry → Type 0
IsEntryOf = Split (λ _. Unit {0}) (λ _. Unit {0})

module _ (hash : String → String) where
  -- A caller in the table comes from an entry with that digest.
  get-add_keys :
      (table : Dict Caller) (entries : List KeyEntry) (digest : String) {caller : Caller}
      → get (add_keys hash table entries) digest ≡ some caller
      → (get table digest ≡ some caller)
        ⊎ ((entry : KeyEntry) × IsEntryOf entry entries
            × (hash entry.key ≡ digest)
            × (caller ≡ caller_of hash entry))
  unfolding add_keys
  get-add_keys table [] digest h = inl h
  get-add_keys table (entry ∷ entries) digest h =
      elim (get-add_keys (put table (hash entry.key) (caller_of hash entry)) entries digest h) [
        | inl here ↦ elim (Bool-cases (hash entry.key == digest)) [
          | inl e ↦ inr (
            entry,
            Split-here entries (All-trivial entries),
            (eq_iff _ _).0 e,
            ground (arith, here, e, get-put table (hash entry.key) digest (caller_of hash entry)),
          )
          | inr e ↦ inl (
              ground (arith, here, e, get-put table (hash entry.key) digest (caller_of hash entry)))
        ]
        | inr (found, at, same, who) ↦ inr (found, Split-cons entry tt at, same, who)
      ]

  table_entry :
      (entries : List KeyEntry) (digest : String) {caller : Caller}
      → get (add_keys hash [] entries) digest ≡ some caller
      → (entry : KeyEntry) × IsEntryOf entry entries
        × (hash entry.key ≡ digest)
        × (caller ≡ caller_of hash entry)
  unfolding get
  table_entry entries digest h = elim (get-add_keys [] entries digest h) [
    | inl e ↦ absurd (ground arith)
    | inr found ↦ found
  ]

  -- A request is accepted by its API key only if the digest of the key that it presents is that of the
  -- key of an entry of the table, and then as that entry's caller.
  pub api_key_authenticate_sound :
      (entries : List KeyEntry) (api_key_header : String) (headers : Headers) {caller : Caller}
      → api_key_authenticate hash (add_keys hash [] entries) api_key_header headers ≡ ok caller
      → (key : String) × (entry : KeyEntry) × IsEntryOf entry entries
        × (extract_key headers api_key_header ≡ some key)
        × (hash entry.key ≡ hash key)
        × (caller ≡ caller_of hash entry)
  unfolding api_key_authenticate
  api_key_authenticate_sound entries api_key_header headers h =
      elim (Option-cases (extract_key headers api_key_header)) [
        | inl e ↦ absurd (ground (arith, e))
        | inr (key, e) ↦
            let (entry, at, same, who) = table_entry entries (hash key) (ground (arith, e)) in
            (key, entry, at, e, same, who)
      ]
