-- ===== src/Skills/Names.antt =====
-- The names that load_skill accepts.
use Prim.Native.Char.{Char, code}
use agent_ship.Prelude.{
  ℕ, String, ◌≡◌, refl, sym, ap, ◌∙◌, Bool, true, false, Option, none, some, List, [], ◌∷◌, not,
  ◌==◌, ◌&&◌, ◌||◌, eqb, all, if◌then◌else◌, arith, Bool-cases, inl, inr, eq_iff,
}
use agent_ship.Text.{split_at, onto_head, lacks, take}
use agent_ship.Errors.{Result, ok, raise, ◌>>◌, >>=-eq-ok}
use agent_ship.Spec.Coherence.{refuse_if}
use agent_ship.Json.{Json, Fields, at, to_text}
use agent_ship.Skills.{
  Skill, is_lower_or_digit, is_dash, name_rest, is_name, check_front, load_skill, make_skill,
  check_name, text_or_null, split_frontmatter, metadata_of,
}

unfoldable all_lower : String → Bool
all_lower String.[] = true
all_lower (String.◌∷◌ c s) = is_lower_or_digit (code c) && all_lower s

-- a group of a name: one lowercase letter or digit at least
abbrev is_group : String → Bool
is_group s = not (s == "") && all_lower s

abbrev is_newline : ℕ → Bool
is_newline c = eqb c 10

-- Groups, of which the first may be the rest of one that has begun.
abbrev groups : Bool → List String → Bool
groups in_group [] = false
groups in_group (first ∷ rest) =
    ((in_group || not (first == "")) && all_lower first) && all is_group rest

has_pieces :
    (sep : ℕ → Bool) (s : String)
    → (first : String) × (rest : List String) × (split_at sep s ≡ first ∷ rest)
unfolding split_at
has_pieces sep String.[] = ("", [], refl)
has_pieces sep (String.◌∷◌ c s) = elim (Bool-cases (sep (code c))) [
  | inl e ↦ ("", split_at sep s, rw e refl)
  | inr e ↦ let (first, rest, h) = has_pieces sep s in (String.◌∷◌ c first, rest, rw (e, h) refl)
]

cons-ne : (c : Char) (s : String) → (String.◌∷◌ c s == "") ≡ false
cons-ne c s = elim (Bool-cases (String.◌∷◌ c s == "")) [
  | inl e ↦ let same : String.◌∷◌ c s ≡ "" = (eq_iff _ _).0 e in cc same
  | inr e ↦ e
]

-- One more character in front of pieces that there are.
groups-cons :
    (in_group : Bool) (c : Char) (first : String) (rest : List String)
    → groups in_group (if is_dash (code c) then "" ∷ first ∷ rest else onto_head c (first ∷ rest))
      ≡ (if is_lower_or_digit (code c)
          then groups true (first ∷ rest)
          else in_group && (is_dash (code c) && groups false (first ∷ rest)))
unfolding all_lower
groups-cons in_group c first rest = ground (arith, cons-ne c first)

and_true : (a b : Bool) → a && b ≡ true → (a ≡ true) × (b ≡ true)
and_true a b h = (ground arith, ground arith)

not_newline : (b : Bool) → not b ≡ true → b ≡ false
not_newline b h = ground arith

or_false_right : (b : Bool) → b || false ≡ b
or_false_right b = ground arith

name_rest-groups :
    (in_group : Bool) (s : String)
    → lacks is_newline s ≡ true
    → name_rest in_group s ≡ groups in_group (split_at is_dash s)
unfolding name_rest split_at lacks all_lower
name_rest-groups true String.[] h = refl
name_rest-groups false String.[] h = refl
name_rest-groups in_group (String.◌∷◌ c s) h =
    let (first, rest, pieces) = has_pieces is_dash s in
    let (ordinary, others) = and_true (not (is_newline (code c))) (lacks is_newline s) h in
    let begun = rw pieces at (name_rest-groups true s others) in
    let new = rw pieces at (name_rest-groups false s others) in
    elim (Bool-cases (is_lower_or_digit (code c))) [
      | inl e ↦ rw (pieces, groups-cons in_group c first rest, e) begun
      | inr e ↦
          rw
            (
              pieces,
              groups-cons in_group c first rest,
              e,
              new,
              not_newline (is_newline (code c)) ordinary,
            )
            (rw (or_false_right (is_dash (code c) && groups false (first ∷ rest))) refl)
    ]

-- A text without a newline is a name exactly if it is groups of lowercase letters and digits, none of them
-- empty, with a hyphen between each two.
is_name-groups :
    (s : String) → lacks is_newline s ≡ true → is_name s ≡ all is_group (split_at is_dash s)
unfolding is_name
is_name-groups s h =
    let (first, rest, pieces) = has_pieces is_dash s in name_rest-groups false s h ∙ rw pieces refl

>>-eq-ok :
    {A : Type 0} (first : Result (Unit {0})) (next : Result A) (value : A)
    → (first >> next) ≡ ok value
    → (first ≡ ok tt) × (next ≡ ok value)
>>-eq-ok (raise error) next value h = cc
>>-eq-ok (ok found) next value h = (refl, h)

refuse_if-ok : (refused : Bool) → refuse_if refused ≡ ok tt → refused ≡ false
refuse_if-ok true h = cc
refuse_if-ok false h = refl

name_lem : (named long : Bool) → not named || not long ≡ false → (named ≡ true) × (long ≡ true)
name_lem named long h = (ground arith, ground arith)

-- What is known of a skill that was loaded from a folder.
record Accepted (folder_name : String) (skill : Skill) : Type 0 where
  pub in_its_folder : skill.name ≡ folder_name
  pub well_named : is_name skill.name ≡ true
  pub not_too_long : take 64 skill.name ≡ skill.name

not-not : (b : Bool) → not b ≡ false → b ≡ true
not-not b h = ground arith

module _ (render : Json → String) where
  check_front-ok :
      (folder_name : String) (front : Fields)
      → check_front render folder_name front ≡ ok tt
      → let name = to_text render (at front "name") in
        (name ≡ folder_name) × (is_name name ≡ true) × (take 64 name ≡ name)
  unfolding check_front
  check_front-ok folder_name front h =
      let name = to_text render (at front "name") in
      let (before, named) = >>-eq-ok _ (check_name render name folder_name) tt h in
      let (fits, same) =
        >>-eq-ok (refuse_if (not (is_name name) || not (take 64 name == name)))
          (refuse_if (not (name == folder_name))) tt named in
      let (good, short) = name_lem (is_name name) (take 64 name == name) (refuse_if-ok _ fits) in
      (
        (eq_iff name folder_name).0 (not-not (name == folder_name) (refuse_if-ok _ same)),
        good,
        (eq_iff (take 64 name) name).0 short,
      )

  make_skill-name :
      (front : Fields) (body : String) (skill : Skill)
      → make_skill render front body ≡ ok skill
      → skill.name ≡ to_text render (at front "name")
  make_skill-name front body skill h =
      elim (Bool-cases
        (text_or_null (at front "license") && text_or_null (at front "compatibility"))) [
          | inr e ↦ absurd (cc (rw e at h))
          | inl e ↦
              let (metadata, _, made) =
                >>=-eq-ok (metadata_of (at front "metadata")) _ (rw e at h) in
              ap (λ (r : Result Skill). elim r [ raise error ↦ skill.name | ok s ↦ s.name ])
                (sym made)
        ]

  -- A skill that load_skill accepts has the name of its folder, of 64 characters at most, as is_name
  -- wants it.
  load_skill-Accepted :
      (safe_load : String → Option Json) (folder_name : String) (text : Option String)
      (skill : Skill)
      → load_skill render safe_load folder_name text ≡ ok skill
      → Accepted folder_name skill
  unfolding load_skill
  load_skill-Accepted safe_load folder_name none skill h = cc
  load_skill-Accepted safe_load folder_name (some text) skill h =
      let (parts, _, checked) = >>=-eq-ok (split_frontmatter safe_load text) _ h in
      let (passed, made) = >>-eq-ok (check_front render folder_name parts.0) _ skill checked in
      let (same, named, short) = check_front-ok folder_name parts.0 passed in
      let name = make_skill-name parts.0 parts.1 skill made in
      record {
        in_its_folder = name ∙ same;
        well_named = ap is_name name ∙ named;
        not_too_long = rw name short;
      }
