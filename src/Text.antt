-- ===== src/Text.antt =====
-- Python's `str` operations that the program walks texts with.
pub mod Separated
use Prim.Native.Char.{Char, code}
use Prim.Native.String.{String, ◌++◌ as ◌<>◌}
use text.Mathlib.TextLemmas.{nil-append, cons-append, append_assoc}
use agent_ship.Prelude.{
  ℕ, zero, suc, ◌≡◌, refl, sym, ap, ◌∙◌, Bool, true, Option, none, some, List, [], ◌∷◌, ◌++◌, arith,
  ◌&&◌, ◌||◌, not, leb, eqb, ◌==◌, if◌then◌else◌, keep,
}

-- c.isspace(), which `strip` and the `\s` of `re` go by
unfoldable pub is_space : ℕ → Bool
is_space c =
    (leb 9 c && leb c 13)
    || (leb 28 c && leb c 32)
    || eqb c 0x85
    || eqb c 0xa0
    || eqb c 0x1680
    || (leb 0x2000 c && leb c 0x200a)
    || eqb c 0x2028
    || eqb c 0x2029
    || eqb c 0x202f
    || eqb c 0x205f
    || eqb c 0x3000

unfoldable lstrip : String → String
lstrip String.[] = ""
lstrip (String.◌∷◌ c s) = if is_space (code c) then lstrip s else String.◌∷◌ c s

unfoldable pub rstrip : String → String
rstrip String.[] = ""
rstrip (String.◌∷◌ c s) =
    let rest = rstrip s in if is_space (code c) && rest == "" then "" else String.◌∷◌ c rest

unfoldable pub strip : String → String
unfolding lstrip rstrip is_space
strip s = rstrip (lstrip s)

abbrev pub is_slash : ℕ → Bool
is_slash c = eqb c b'/'

-- s[len(prefix):] if s.startswith(prefix)
unfoldable pub after_prefix : String → String → Option String
after_prefix String.[] s = some s
after_prefix (String.◌∷◌ c prefix) String.[] = none
after_prefix (String.◌∷◌ c prefix) (String.◌∷◌ d s) =
    if eqb (code c) (code d) then after_prefix prefix s else none

-- s.endswith(suffix)
unfoldable pub ends_with : String → String → Bool
ends_with suffix String.[] = suffix == ""
ends_with suffix (String.◌∷◌ c s) = String.◌∷◌ c s == suffix || ends_with suffix s

-- a character in front of the first of the pieces of a split, which has one at least
abbrev pub onto_head : Char → List String → List String
onto_head c [] = String.◌∷◌ c "" ∷ []
onto_head c (piece ∷ pieces) = String.◌∷◌ c piece ∷ pieces

-- The pieces between the characters that pass a test: s.split(sep) for a separator of one character.
unfoldable pub split_at : (ℕ → Bool) → String → List String
split_at sep String.[] = "" ∷ []
split_at sep (String.◌∷◌ c s) =
    let rest = split_at sep s in if sep (code c) then "" ∷ rest else onto_head c rest

-- No character of the text passes the test.
unfoldable pub lacks : (ℕ → Bool) → String → Bool
lacks sep String.[] = true
lacks sep (String.◌∷◌ c s) = not (sep (code c)) && lacks sep s

pub split_at-lacks : (sep : ℕ → Bool) (s : String) → lacks sep s ≡ true → split_at sep s ≡ s ∷ []
unfolding split_at lacks
split_at-lacks sep String.[] h = refl
split_at-lacks sep (String.◌∷◌ c s) h = ground (arith, split_at-lacks sep s)

-- A text with no separator, then a separator, then a text.
pub split_at-append :
    (sep : ℕ → Bool) (s : String) (c : Char) (t : String)
    → lacks sep s ≡ true
    → sep (code c) ≡ true
    → split_at sep (s <> String.◌∷◌ c t) ≡ s ∷ split_at sep t
unfolding split_at lacks
split_at-append sep String.[] c t h hc = rw nil-append (ground (arith, hc))
split_at-append sep (String.◌∷◌ d s) c t h hc =
    rw cons-append (ground (arith, split_at-append sep s c t, hc))

-- "".join(chunks)
abbrev pub join : List String → String
join [] = ""
join (chunk ∷ chunks) = chunk <> join chunks

pub join-append : (xs ys : List String) → join (xs ++ ys) ≡ join xs <> join ys
join-append [] ys = sym (nil-append (join ys))
join-append (x ∷ xs) ys =
    ap (λ t. x <> t) (join-append xs ys) ∙ sym (append_assoc x (join xs) (join ys))

-- s[:n]
unfoldable pub take : ℕ → String → String
take zero s = ""
take (suc n) String.[] = ""
take (suc n) (String.◌∷◌ c s) = String.◌∷◌ c (take n s)

-- s.rjust(n, "0")
unfoldable pub zero_fill : ℕ → String → String
zero_fill zero s = s
zero_fill (suc n) s = let filled = zero_fill n s in if take n s == s then "0" <> filled else filled

-- s.split()
abbrev pub words : String → List String
words s = keep (λ word. not (word == "")) (split_at is_space s)

-- s.rstrip("/")
unfoldable pub rstrip_slash : String → String
rstrip_slash String.[] = ""
rstrip_slash (String.◌∷◌ c s) =
    let rest = rstrip_slash s in if is_slash (code c) && rest == "" then "" else String.◌∷◌ c rest
