-- ===== src/Skills.antt =====
-- agentship/skills: loader.py, registry.py and render.py, guidance for an agent from SKILL.md files.
pub mod Names
use Prim.Native.String.{◌++◌ as ◌<>◌}
use Prim.Native.Char.{code}
use agent_ship.Prelude.{
  ℕ, String, Bool, true, false, Option, none, some, List, [], ◌∷◌, not, ◌==◌, ◌&&◌, ◌||◌, eqb, leb,
  ltb, if◌then◌else◌, elem, keep, all, truthy,
}
use agent_ship.Text.{strip, rstrip, split_at, after_prefix, is_space, take, words}
use agent_ship.Errors.{Result, ok, raise, spec_error, other, ◌>>=◌, ◌>>◌}
use agent_ship.Spec.Coherence.{refuse_if}
use agent_ship.Specialist.Values.{is_empty}
use agent_ship.Json.{
  Json, Items, Fields, null, flag, number, string, array, object, no_fields, field, at, is_true,
  to_text,
}

pub record Skill : Type 0 where
  pub name : String
  pub description : String
  pub instructions : String
  pub license : Json
  pub compatibility : Json
  pub metadata : Fields
  pub allowed_tools : List String

-- what stands before and after the first separator: s.split(sep, 1), where there is one
unfoldable split_once : String → String → Option (String × String)
unfolding after_prefix
split_once sep String.[] = elim (after_prefix sep "") [ none ↦ none | some rest ↦ some ("", rest) ]
split_once sep (String.◌∷◌ c s) =
    let rest = split_once sep s in
    elim (after_prefix sep (String.◌∷◌ c s)) [
      | some after ↦ some ("", after)
      | none ↦ elim rest [ none ↦ none | some (before, after) ↦ some (String.◌∷◌ c before, after) ]
    ]

-- yaml.safe_load(…) or {}, which must be a mapping
abbrev pub mapping : Json → Result Fields
mapping (object d) = ok d
mapping value = if is_true value then raise spec_error else ok no_fields

abbrev pub loaded : Option Json → Result Fields
loaded none = raise spec_error
loaded (some value) = mapping value

abbrev halves : Option (String × String) → Result (String × String)
halves none = raise spec_error
halves (some both) = ok both

-- `safe_load` is yaml.safe_load, with nothing where it raises a YAMLError
unfoldable pub split_frontmatter : (String → Option Json) → String → Result (Fields × String)
unfolding split_once strip
split_frontmatter safe_load text = elim (after_prefix "---" text) [
  | none ↦ raise spec_error
  | some after ↦ do
    both ← halves (split_once "---" after)
    front ← loaded (safe_load both.0)
    ok (front, strip both.1)
]

-- _ALLOWED_KEYS
abbrev allowed_keys : List String
allowed_keys =
    "name" ∷ "description" ∷ "license" ∷ "compatibility" ∷ "metadata" ∷ "allowed-tools" ∷ []

unfoldable pub keys_of : Fields → List String
keys_of no_fields = []
keys_of (field key value d) = key ∷ keys_of d

abbrev pub is_lower_or_digit : ℕ → Bool
is_lower_or_digit c = (leb b'a' c && leb c b'z') || (leb b'0' c && leb c b'9')

abbrev pub is_dash : ℕ → Bool
is_dash c = eqb c b'-'

-- _NAME_RE.match: `in_group` says whether a character of a group has been read. A `$` of re also stands
-- before a newline at the end.
unfoldable pub name_rest : (in_group : Bool) → String → Bool
name_rest in_group String.[] = in_group
name_rest in_group (String.◌∷◌ c s) =
    let rest = name_rest (is_lower_or_digit (code c)) s in
    if is_lower_or_digit (code c)
    then rest
    else in_group && (is_dash (code c) && rest || (eqb (code c) 10 && s == ""))

unfoldable pub is_name : String → Bool
unfolding name_rest
is_name = name_rest false

abbrev all_texts : Fields → Bool
all_texts no_fields = true
all_texts (field key (string s) d) = all_texts d
all_texts (field key value d) = false

abbrev pub text_or_null : Json → Bool
text_or_null null = true
text_or_null (string s) = true
text_or_null value = false

-- front.get("metadata") or {}
abbrev pub metadata_of : Json → Result Fields
metadata_of (object d) = if all_texts d then ok d else raise other
metadata_of value = if is_true value then raise other else ok no_fields

-- front.get("allowed-tools", "")
abbrev pub tools_entry : Fields → Json
tools_entry front =
    if elem "allowed-tools" (keys_of front) then at front "allowed-tools" else string ""

-- `render` is str on what is no text.
module _ (render : Json → String) where
  abbrev text_at : Fields → String → String
  text_at front key = to_text render (at front key)

  -- the constructor of Skill, which validates its fields
  abbrev pub make_skill : Fields → String → Result Skill
  make_skill front body =
      if text_or_null (at front "license") && text_or_null (at front "compatibility")
      then (do
        metadata ← metadata_of (at front "metadata")
        ok record {
          name = text_at front "name";
          description = text_at front "description";
          instructions = body;
          license = at front "license";
          compatibility = at front "compatibility";
          metadata = metadata;
          allowed_tools = words (to_text render (tools_entry front));
        })
      else raise other

  abbrev pub check_name : String → String → Result (Unit {0})
  check_name name folder_name =
      refuse_if (not (is_name name) || not (take 64 name == name))
      >> refuse_if (not (name == folder_name))

  unfoldable pub check_front : String → Fields → Result (Unit {0})
  unfolding at keys_of is_name take
  check_front folder_name front =
      refuse_if (not (all (λ key. elem key allowed_keys) (keys_of front)))
      >> refuse_if (not (is_true (at front "name")))
      >> refuse_if (not (is_true (at front "description")))
      >> check_name (text_at front "name") folder_name

  -- load_skill, from the folder's name and the text of its SKILL.md, if there is one
  unfoldable pub load_skill : (String → Option Json) → String → Option String → Result Skill
  unfolding split_frontmatter check_front split_at
  load_skill safe_load folder_name none = raise spec_error
  load_skill safe_load folder_name (some text) = do
    parts ← split_frontmatter safe_load text
    check_front folder_name parts.0
    make_skill parts.0 parts.1

-- resolve_skill: `on_disk` loads the folder that the reference names, if it has a SKILL.md
unfoldable pub resolve_skill :
    (String → Option (Result Skill)) → (String → Option Skill) → String → Result Skill
resolve_skill on_disk registered ref = elim (on_disk ref) [
  | some skill ↦ skill
  | none ↦ elim (registered ref) [ none ↦ raise spec_error | some skill ↦ ok skill ]
]

abbrev skills_header : String
skills_header =
    "You have the following skills — how-to guidance for using your tools. Follow the relevant one when a request matches its description.\n"

unfoldable block_of : Skill → String
unfolding rstrip
block_of skill = rstrip (
    "## Skill: " <> (skill.name <> ("\n" <> (skill.description <> ("\n\n" <> skill.instructions)))))

-- "\n\n".join(blocks)
unfoldable paragraphs : List String → String
paragraphs [] = ""
paragraphs (block ∷ []) = block
paragraphs (block ∷ next ∷ blocks) = block <> ("\n\n" <> paragraphs (next ∷ blocks))

-- for ref in skills
unfoldable blocks_of : (String → Result Skill) → List String → Result (List String)
unfolding block_of
blocks_of resolve [] = ok []
blocks_of resolve (ref ∷ refs) = do
  skill ← resolve ref
  blocks ← blocks_of resolve refs
  ok (block_of skill ∷ blocks)

abbrev with_prompt : Option String → String → String
with_prompt none guidance = guidance
with_prompt (some prompt) guidance =
    if prompt == "" then guidance else prompt <> ("\n\n" <> guidance)

unfoldable pub render_agent_prompt :
    (String → Result Skill) → Option String → Option (List String) → Result (Option String)
unfolding blocks_of paragraphs
render_agent_prompt resolve prompt none = ok prompt
render_agent_prompt resolve prompt (some []) = ok prompt
render_agent_prompt resolve prompt (some (ref ∷ refs)) = do
  blocks ← blocks_of resolve (ref ∷ refs)
  ok (some (with_prompt prompt (skills_header <> ("\n" <> paragraphs blocks))))
