-- ===== src/Registry/Resolve.antt =====
-- Which provider a name resolves to.
use agent_ship.Prelude.{
  String, ◌≡◌, false, Option, none, some, List, [], ◌∷◌, ◌==◌, if◌then◌else◌, arith, eq_iff,
  Option-cases, inl, inr,
}
use agent_ship.Dict.{Dict, get, put, get-put}
use agent_ship.Registry.{EntryPoint, Registry, register, load_all, discover, find}

module _ {T : Type 0} where
  -- The first entry point of that name that loads.
  abbrev first_loading : List (EntryPoint T) → String → Option T
  first_loading [] name = none
  first_loading (ep ∷ eps) name =
      if ep.name == name
      then elim ep.load [ none ↦ first_loading eps name | some p ↦ some p ]
      else first_loading eps name

  abbrev pub or_else : Option T → Option T → Option T
  or_else (some p) q = some p
  or_else none q = q

  get-load_all :
      (providers : Dict T) (eps : List (EntryPoint T)) (name : String)
      → get (load_all providers eps) name ≡ or_else (get providers name) (first_loading eps name)
  unfolding load_all
  get-load_all providers [] name = ground arith
  get-load_all providers (ep ∷ eps) name = elim (Option-cases (get providers ep.name)) [
    | inr (p, e) ↦ rw e (ground (arith, get-load_all providers eps name, e, eq_iff ep.name name))
    | inl e ↦ elim (Option-cases ep.load) [
      | inl l ↦ rw (e, l) (ground (arith, get-load_all providers eps name, e, eq_iff ep.name name))
      | inr (p, l) ↦
          rw (e, l)
            (ground (
              arith,
              get-load_all (put providers ep.name p) eps name,
              get-put providers ep.name name p,
              e,
              eq_iff ep.name name,
            ))
    ]
  ]

  module _ (eps : List (EntryPoint T)) where
    -- Before discovery a name resolves to what the code registered under it, and else to the first
    -- entry point of that name that loads: a plugin that does not load hides no other.
    find_resolves :
        (r : Registry T) (name : String)
        → r.discovered ≡ false
        → (find eps r name).0 ≡ or_else (get r.providers name) (first_loading eps name)
    unfolding find discover
    find_resolves r name h = ground (arith, get-load_all r.providers eps name)

    -- Asking for a name never changes what a name resolves to, before discovery or after it.
    find-find :
        (r : Registry T) (asked name : String)
        → (find eps (find eps r asked).1 name).0 ≡ (find eps r name).0
    unfolding find discover
    find-find r asked name =
        ground (arith, get-load_all r.providers eps name, get-load_all r.providers eps asked)

    -- A provider that the code registers is the one that its name then resolves to, whatever entry
    -- points there are and whether they have been discovered, and what other names resolve to stays.
    find-register :
        (r : Registry T) (name asked : String) (provider : T)
        → (find eps (register r name provider) asked).0
          ≡ (if name == asked then some provider else (find eps r asked).0)
    unfolding find register discover
    find-register r name asked provider = ground (
      arith,
      get-put r.providers name asked provider,
      get-load_all r.providers eps asked,
      get-load_all (put r.providers name provider) eps asked,
      eq_iff name asked,
    )
