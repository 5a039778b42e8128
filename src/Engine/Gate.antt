-- ===== src/Engine/Gate.antt =====
-- What the capability gate lets through.
use Prim.Native.Char.{Char, code}
use mathlib.Core.Option as Option
use agent_ship.Text.{is_slash, lacks, split_at, onto_head}
use agent_ship.Specialist.Values.{is_empty}
use agent_ship.Prelude.{
  ◌∙◌, sym, ap, elem, ◌==◌, eq_iff, String, ◌≡◌, refl, Bool, true, false, Option, none, some, List,
  [], ◌∷◌, ◌++◌, ◌&&◌, ◌||◌, not, truthy, if◌then◌else◌, all, arith, Bool-cases, inl, inr,
}
use mathlib.Core.Bool.{false≢true}
use agent_ship.Errors.{Result, ok, raise, capability_error, ◌>>◌}
use agent_ship.Spec.{AgentSpec, Durability, not_durable, checkpoint, workflow}
use agent_ship.Engine.{
  EngineCapabilities, lacking_if, has_items, same_durability, is_unstructured, reaches, first_of,
  assert_provider_supported, assert_supports_spec,
}

-- What a spec can ask of an engine.
pub data Requirement : Type 0 where
  streams structures coordinates calls_tools : Requirement
  survives : Durability → Requirement
  reaches_model : String → Requirement

abbrev pub asked : Bool → Requirement → List Requirement
asked true r = r ∷ []
asked false r = []

abbrev durability_asked : Durability → List Requirement
durability_asked not_durable = []
durability_asked mode = survives mode ∷ []

abbrev model_asked : Option String → List Requirement
model_asked none = []
model_asked (some model) = reaches_model model ∷ []

-- What a spec asks, read off its fields.
abbrev pub requirements : AgentSpec → List Requirement
requirements spec =
    asked spec.streaming streams
    ++ asked (truthy spec.output_schema) structures
    ++ asked (has_items spec.members) coordinates
    ++ asked (has_items spec.tools || has_items spec.mcp) calls_tools
    ++ durability_asked spec.durability
    ++ model_asked spec.model

-- What stands before the first slash of a text, if it has one.
abbrev head_of : String → Option String
head_of String.[] = none
head_of (String.◌∷◌ c s) =
    let rest = head_of s in if is_slash (code c) then some "" else Option.map (String.◌∷◌ c) rest

head_of-lacks : (model : String) → lacks is_slash model ≡ true → head_of model ≡ none
unfolding lacks
head_of-lacks String.[] h = refl
head_of-lacks (String.◌∷◌ c s) h = ground (arith, head_of-lacks s)

first_of-onto_head :
    (c : Char) (pieces : List String)
    → first_of (onto_head c pieces) ≡ String.◌∷◌ c (first_of pieces)
first_of-onto_head c [] = refl
first_of-onto_head c (piece ∷ pieces) = refl

not_empty : (model : String) → lacks is_slash model ≡ false → (model == "") ≡ false
unfolding lacks
not_empty model h = elim (Bool-cases (model == "")) [
  | inl e ↦ absurd (false≢true (sym h ∙ ap (lacks is_slash) ((eq_iff model "").0 e)))
  | inr e ↦ e
]

head_of-split_at :
    (model : String)
    → lacks is_slash model ≡ false
    → head_of model ≡ some (first_of (split_at is_slash model))
unfolding lacks split_at
head_of-split_at String.[] h = absurd (ground arith)
head_of-split_at (String.◌∷◌ c s) h = elim (Bool-cases (is_slash (code c))) [
  | inl e ↦ rw e refl
  | inr e ↦
      rw (e, head_of-split_at s (ground (arith, e)), first_of-onto_head c (split_at is_slash s))
        refl
]

module _ (lower : String → String) where
  -- Any provider, where none is listed.
  abbrev pub lists : List String → Option String → Bool
  lists providers none = true
  lists providers (some head) = is_empty providers || elem (lower head) providers

  abbrev pub provides : EngineCapabilities → Requirement → Bool
  provides caps streams = caps.streaming
  provides caps structures = not (is_unstructured caps.structured_output)
  provides caps coordinates = caps.multi_agent
  provides caps calls_tools = caps.tool_calling
  provides caps (survives mode) = same_durability mode caps.durability
  provides caps (reaches_model model) = lists caps.providers (head_of model)

  abbrev verdict : Bool → Result (Unit {0})
  verdict good = if good then ok tt else raise capability_error

  all-append :
      (p : Requirement → Bool) (xs ys : List Requirement)
      → all p (xs ++ ys) ≡ (all p xs && all p ys)
  all-append p [] ys = refl
  all-append p (x ∷ xs) ys = ground (arith, all-append p xs ys)

  -- two checks, one after the other
  checks-append :
      (p : Requirement → Bool) (xs ys : List Requirement) {m n : Result (Unit {0})}
      → m ≡ verdict (all p xs)
      → n ≡ verdict (all p ys)
      → (m >> n) ≡ verdict (all p (xs ++ ys))
  checks-append p xs ys {m} {n} h h' =
      rw (all-append p xs ys, h, h') (verdict-and (all p xs) (all p ys))
    where
      verdict-and : (a b : Bool) → (verdict a >> verdict b) ≡ verdict (a && b)
      verdict-and true b = refl
      verdict-and false b = refl

  check-asked :
      (p : Requirement → Bool) (wanted : Bool) (r : Requirement)
      → lacking_if (wanted && not (p r)) ≡ verdict (all p (asked wanted r))
  check-asked p true r = ground arith
  check-asked p false r = refl

  check-structured :
      (caps : EngineCapabilities) (wanted : Bool)
      → lacking_if (wanted && is_unstructured caps.structured_output)
        ≡ verdict (all (provides caps) (asked wanted structures))
  check-structured caps true = ground arith
  check-structured caps false = refl

  check-durability :
      (caps : EngineCapabilities) (mode : Durability)
      → lacking_if
          (not (same_durability mode not_durable) && not (same_durability mode caps.durability))
        ≡ verdict (all (provides caps) (durability_asked mode))
  check-durability caps not_durable = refl
  check-durability caps checkpoint = ground arith
  check-durability caps workflow = ground arith

  reaches-provides :
      (caps : EngineCapabilities) (model : String)
      → reaches lower caps.providers model ≡ provides caps (reaches_model model)
  reaches-provides caps model = elim (Bool-cases (lacks is_slash model)) [
    | inl e ↦ ground (arith, e) ∙ ap (lists caps.providers) (sym (head_of-lacks model e))
    | inr e ↦
        ground (arith, e, not_empty model e)
        ∙ ap (lists caps.providers) (sym (head_of-split_at model e))
  ]

  check-model :
      (caps : EngineCapabilities) (spec : AgentSpec)
      → assert_provider_supported lower caps spec
        ≡ verdict (all (provides caps) (model_asked spec.model))
  unfolding assert_provider_supported
  check-model caps spec = on_model spec.model
    where
      on_model :
          (o : Option String)
          → elim o as (λ _. Result (Unit {0})) [
            | none ↦ ok tt
            | some model ↦ lacking_if (not (reaches lower caps.providers model))
          ]
            ≡ verdict (all (provides caps) (model_asked o))
      on_model none = refl
      on_model (some model) = elim (Bool-cases (reaches lower caps.providers model)) [
        | inl e ↦ rw (← reaches-provides caps model, e) refl
        | inr e ↦ rw (← reaches-provides caps model, e) refl
      ]

  -- The gate lets a spec through exactly if the engine provides everything that the spec asks for: its
  -- durability in the very mode; and, if the model is written with a slash and the engine lists providers,
  -- what stands before the first slash, in lower case, among them. A model without a slash passes. It
  -- refuses any other spec with a CapabilityError.
  pub assert_supports_spec-provides :
      (caps : EngineCapabilities) (spec : AgentSpec)
      → assert_supports_spec lower caps spec
        ≡ (if all (provides caps) (requirements spec) then ok tt else raise capability_error)
  unfolding assert_supports_spec
  assert_supports_spec-provides caps spec =
      let p : Requirement → Bool = provides caps in
      let third = asked spec.streaming streams ++ asked (truthy spec.output_schema) structures in
      let second = third ++ asked (has_items spec.members) coordinates in
      let first = second ++ asked (has_items spec.tools || has_items spec.mcp) calls_tools in
      checks-append p (first ++ durability_asked spec.durability) (model_asked spec.model)
        (checks-append p first (durability_asked spec.durability)
          (checks-append p second (asked (has_items spec.tools || has_items spec.mcp) calls_tools)
            (checks-append p third (asked (has_items spec.members) coordinates)
              (checks-append p (asked spec.streaming streams)
                (asked (truthy spec.output_schema) structures)
                (check-asked p spec.streaming streams)
                (check-structured caps (truthy spec.output_schema)))
              (check-asked p (has_items spec.members) coordinates))
            (check-asked p (has_items spec.tools || has_items spec.mcp) calls_tools))
          (check-durability caps spec.durability))
        (check-model caps spec)
