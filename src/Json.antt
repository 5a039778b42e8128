-- ===== src/Json.antt =====
-- The values that Python's `json` reads and writes, as the code meets them in events, tokens and
-- messages: what `get`, `or` and a dict display do to them.
use agent_ship.Prelude.{
  ℕ, String, ◌≡◌, refl, Bool, true, false, Option, none, some, not, eqb, ◌==◌, if◌then◌else◌, arith,
  eq_iff,
}

mutual
  pub data Json : Type 0 where
    null : Json
    flag : Bool → Json
    number : ℕ → Json
    string : String → Json
    array : Items → Json
    object : Fields → Json

  pub data Items : Type 0 where
    no_items : Items
    item : Json → Items → Items

  pub data Fields : Type 0 where
    no_fields : Fields
    field : String → Json → Fields → Fields

-- d.get(key)
unfoldable pub at : Fields → String → Json
at no_fields key = null
at (field k value d) key = if k == key then value else at d key

-- d[key] = value: a key that is there keeps its place
unfoldable pub set : Fields → String → Json → Fields
set no_fields key value = field key value no_fields
set (field k old d) key value =
    let rest = set d key value in if k == key then field k value d else field k old rest

-- {**d, **more}
unfoldable pub merge : Fields → Fields → Fields
merge d no_fields = d
merge d (field k value more) = merge (set d k value) more

-- bool(value)
abbrev pub is_true : Json → Bool
is_true null = false
is_true (flag b) = b
is_true (number n) = not (eqb n 0)
is_true (string s) = not (s == "")
is_true (array no_items) = false
is_true (array (item value values)) = true
is_true (object no_fields) = false
is_true (object (field k value d)) = true

-- a or b
abbrev pub or_else : Json → Json → Json
or_else a b = if is_true a then a else b

-- value or None, of a text
abbrev pub optional : Option String → Json
optional none = null
optional (some s) = string s

-- str(value), where a text is itself; `render` is what str makes of the others
abbrev pub to_text : (Json → String) → Json → String
to_text render (string s) = s
to_text render value = render value

at-set :
    (d : Fields) (k j : String) (value : Json)
    → at (set d k value) j ≡ (if k == j then value else at d j)
unfolding at set
at-set no_fields k j value = refl
at-set (field i old d) k j value =
    ground (arith, eq_iff k j, eq_iff i k, eq_iff i j, at-set d k j value)
