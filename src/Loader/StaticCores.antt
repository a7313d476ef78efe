-- ===== src/Loader/StaticCores.antt =====
-- src/loader/StaticCoreRegistry.cpp and StaticCoreModule.h: cores that are linked in, by their ids. `G` is
-- a function that gives the ABI of a core.
use retro_park.Base.{
  ◌≡◌, refl, ap, ◌∙◌, Bool, true, false, Option, none, some, List, [], ◌∷◌, ℕ, if◌then◌else◌,
}
use retro_park.Base.Bytes.{bytes_eq, codes}
use retro_park.Base.Dict.{Dict, lookup, insert, lookup-insert}

module _ {G : Type 0} where
  pub register_core : List ℕ → G → Dict G → Dict G
  register_core id getter registry = insert id getter registry

  pub get : List ℕ → Dict G → Option G
  get id registry = lookup id registry

  pub has : List ℕ → Dict G → Bool
  has id registry = elim (lookup id registry) [ none ↦ false | some getter ↦ true ]

  -- The module of a core that is linked in finds one symbol.
  pub resolve : G → Option (List ℕ) → Option G
  unfolding bytes_eq
  resolve getter none = none
  resolve getter (some symbol) =
      if bytes_eq symbol (codes "rp_get_core_abi") then some getter else none

  -- Registrations in order, the last one last
  pub register_all : List (List ℕ × G) → Dict G → Dict G
  unfolding register_core
  register_all [] registry = registry
  register_all ((id, getter) ∷ rest) registry = register_all rest (register_core id getter registry)

  -- What was registered last under an id, or before all of these
  pub last_of : List ℕ → List (List ℕ × G) → Option G → Option G
  last_of id [] before = before
  last_of id ((j, getter) ∷ rest) before =
      last_of id rest (if bytes_eq j id then some getter else before)

  get-register_all-from :
      (id : List ℕ) (cores : List (List ℕ × G)) (registry : Dict G)
      → get id (register_all cores registry) ≡ last_of id cores (get id registry)
  unfolding get register_all last_of
  get-register_all-from id [] registry = refl
  get-register_all-from id ((j, getter) ∷ rest) registry =
      get-register_all-from id rest (insert j getter registry)
      ∙ ap (last_of id rest) (lookup-insert j id getter registry)

  -- The core under an id is the one registered last under it, and there is one exactly if one was
  -- registered.
  pub get-register_all :
      (id : List ℕ) (cores : List (List ℕ × G))
      → (get id (register_all cores []) ≡ last_of id cores none)
        × (has id (register_all cores [])
            ≡ (elim (last_of id cores none) [ none ↦ false | some getter ↦ true ]))
  unfolding has get lookup
  get-register_all id cores =
      let e = get-register_all-from id cores [] in
      (e, ap (λ (o : Option G). elim o [ none ↦ false | some getter ↦ true ]) e)
