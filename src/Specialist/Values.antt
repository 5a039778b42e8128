-- ===== src/Specialist/Values.antt =====
-- A specialist's result, over the values that agents return.
use agent_ship.Prelude.{String, Bool, Option, true, false, List, [], ◌∷◌, ◌||◌, truthy}
use agent_ship.Dict.{Dict}

-- The values that agents return are the program's input, of any type. What the code asks of one:
-- whether it is `None`, its text if it is a `str`, its `str(…)`, and how two confidences compare.
pub record Values : Type 1 where
  pub Value : Type 0
  pub is_none : Value → Bool
  pub as_str : Value → Option String
  pub str : Value → String
  pub str_dict : Dict Value → String
  pub lt : Value → Value → Bool
  -- float("-inf")
  pub neg_inf : Value

pub record SpecialistResult (Value : Type 0) : Type 0 where
  pub name : String
  pub output : Dict Value
  pub confidence : Option Value
  pub error : Option String

-- `not output`
abbrev pub is_empty {ℓ} : {A : Type ℓ} → List A → Bool
is_empty [] = true
is_empty (x ∷ xs) = false

-- `r["error"] or not r["output"]`
abbrev pub is_dropped : {Value : Type 0} → SpecialistResult Value → Bool
is_dropped r = truthy r.error || is_empty r.output
