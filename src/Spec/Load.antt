-- ===== src/Spec/Load.antt =====
-- `load_spec` and `resolve_code`: specs from files, builders from references.
use Prim.Native.Char.{code}
use agent_ship.Prelude.{String, Option, none, some, map, eqb, ◌==◌, if◌then◌else◌}
use agent_ship.Text.{ends_with}
use agent_ship.Errors.{Result, ok, raise, spec_error, ◌>>=◌}
use agent_ship.Spec.{MemberSpec, AgentSpec}
use agent_ship.Spec.Coherence.{validate}

-- What reading a file as YAML gives. A mapping is given by the spec that its fields make, or by `none`
-- where a field is unknown, missing or of the wrong type.
data Document : Type 0 where
  missing malformed not_a_mapping : Document
  mapping : Option AgentSpec → Document

-- str((p.parent / ref).resolve()), for the path of the spec's file
module _ (resolve_path : String → String → String) where
  unfoldable resolve_member : String → MemberSpec → MemberSpec
  resolve_member path member = record member {
    ref = elim member.ref [ none ↦ none | some ref ↦ some (resolve_path path ref) ];
  }

  unfoldable resolve_members : String → AgentSpec → AgentSpec
  unfolding resolve_member
  resolve_members path spec = record spec {
    members = elim spec.members [ none ↦ none | some ms ↦ some (map (resolve_member path) ms) ];
  }

  unfoldable load_spec : (String → Document) → String → Result AgentSpec
  unfolding validate resolve_members
  load_spec read path = elim (read path) [
    | missing ↦ raise spec_error
    | malformed ↦ raise spec_error
    | not_a_mapping ↦ raise spec_error
    | mapping none ↦ raise spec_error
    | mapping (some spec) ↦ do checked ← validate spec; ok (resolve_members path spec)
  ]

-- ref.partition(":"), with `none` where there is no ":"
unfoldable partition : String → Option (String × String)
partition String.[] = none
partition (String.◌∷◌ c s) =
    let rest : Option (String × String) = elim (partition s) [
      | none ↦ none
      | some (a, b) ↦ some (String.◌∷◌ c a, b)
    ] in
    if eqb (code c) b':' then some ("", s) else rest

-- What the interpreter finds: a module's attribute by name, in a file or in an importable module.
pub record Modules (Builder : Type 0) : Type 0 where
  pub from_file : String → Option (String → Option Builder)
  pub imported : String → Option (String → Option Builder)

module _ {Builder : Type 0} (modules : Modules Builder) where
  unfoldable pub resolve_code : String → Result Builder
  unfolding partition ends_with
  resolve_code ref = elim (partition ref) [
    | none ↦ raise spec_error
    | some (module_ref, attr) ↦
        let found : Option (String → Option Builder) =
          if ends_with ".py" module_ref
          then modules.from_file module_ref
          else modules.imported module_ref in
        if attr == "" then raise spec_error else elim found [
          | none ↦ raise spec_error
          | some attributes ↦ elim (attributes attr) [ none ↦ raise spec_error | some b ↦ ok b ]
        ]
  ]
