-- ===== src/Prelude/Texts.antt =====
-- Texts as Python's `str`: membership in a list of texts, truth of an optional text.
use Prim.Native.String.{String}
use mathlib.Core.Bool.{Bool, false, not, ◌||◌}
use mathlib.Core.Option.{Option, none, some}
use mathlib.Core.List.{List, [], ◌∷◌}
use text.Mathlib.Text.{◌==◌}

-- x in xs
abbrev pub elem : String → List String → Bool
elem x [] = false
elem x (y ∷ ys) = x == y || elem x ys

-- bool(s) for `s : str | None`
abbrev pub truthy : Option String → Bool
truthy none = false
truthy (some s) = not (s == "")
