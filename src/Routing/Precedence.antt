-- ===== src/Routing/Precedence.antt =====
-- What a routed model is.
use agent_ship.Prelude.{
  String, ◌≡◌, refl, sym, ◌∙◌, false, Option, none, some, List, [], ◌∷◌, ◌==◌, if◌then◌else◌, arith,
}
use agent_ship.Errors.{Result, ok, raise, capability_error}
use agent_ship.Routing.{TaskHint, RouterTable, no_hint, by_tier, pick}

-- The candidates, best first, and the first of them that is a nonempty text.
abbrev first_truthy : List (Option String) → Result String
first_truthy [] = raise capability_error
first_truthy (none ∷ rest) = first_truthy rest
first_truthy (some s ∷ rest) = if s == "" then first_truthy rest else ok s

-- The model of a hinted turn is the first nonempty one of the hint's own, the table's for the hint's
-- tier, the spec's and the table's default; if there is none, a CapabilityError is raised.
pick-first_truthy :
    (table : RouterTable) (spec_model : Option String) (hint : TaskHint)
    → pick table spec_model (some hint)
      ≡ first_truthy (hint.model ∷ by_tier table hint.tier ∷ spec_model ∷ table.default ∷ [])
unfolding pick
pick-first_truthy table spec_model hint = ground arith

first_truthy-ne-empty :
    (candidates : List (Option String)) {model : String}
    → first_truthy candidates ≡ ok model
    → (model == "") ≡ false
first_truthy-ne-empty [] h = ground arith
first_truthy-ne-empty (none ∷ rest) h = first_truthy-ne-empty rest h
first_truthy-ne-empty (some s ∷ rest) {model} h =
    grind (arith, first_truthy-ne-empty rest {model = model})

pick-none :
    (table : RouterTable) (spec_model : Option String)
    → pick table spec_model none ≡ pick table spec_model (some no_hint)
unfolding pick
pick-none table spec_model = refl

-- Routing never answers with an empty model id.
pick-ne-empty :
    (table : RouterTable) (spec_model : Option String) (task : Option TaskHint) {model : String}
    → pick table spec_model task ≡ ok model
    → (model == "") ≡ false
pick-ne-empty table spec_model none h =
    first_truthy-ne-empty (none ∷ none ∷ spec_model ∷ table.default ∷ [])
      (sym (pick-first_truthy table spec_model no_hint) ∙ sym (pick-none table spec_model) ∙ h)
pick-ne-empty table spec_model (some hint) h =
    first_truthy-ne-empty (hint.model ∷ by_tier table hint.tier ∷ spec_model ∷ table.default ∷ [])
      (sym (pick-first_truthy table spec_model hint) ∙ h)
