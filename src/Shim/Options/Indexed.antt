-- ===== src/Shim/Options/Indexed.antt =====
-- cores/libretro_shim/LibretroShim.cpp: the index of the options stays within them.
use retro_park.Base.{
  ℕ, Bool, true, false, not, ◌||◌, ◌≡◌, refl, arith, Option, none, some, List, [], ◌∷◌, ◌++◌,
  length, get_elem?, get_elem?-append, get_elem?-last, Bool-cases, Option-cases, inl, inr,
}
use retro_park.Base.Bytes.{bytes_eq, bytes_eq_iff}
use retro_park.Base.Dict.{lookup, insert, lookup-insert}
use retro_park.Loader.CoreLoader.{value}
use retro_park.Shim.Options.{ShimOption, Options, is_empty, is_some, shim_add_option, serve}

-- A key of the index stands at its place.
abbrev pub IsIndexed : Options → Type 0
IsIndexed o =
    (k : List ℕ) (i : ℕ)
    → lookup k o.option_index ≡ some i
    → (d : ShimOption) × (get_elem? o.option_defs i ≡ some d) × (d.key ≡ k)

-- Only keys of the index have overrides.
abbrev pub IsKnown : Options → Type 0
IsKnown o =
    (k : List ℕ) → is_some (lookup k o.option_index) ≡ false → lookup k o.option_overrides ≡ none

pub record IsSound (o : Options) : Type 0 where
  pub indexed : IsIndexed o
  pub known : IsKnown o

abbrev pub is_new : ShimOption → Options → Bool
is_new d o = not (is_empty d.key || is_some (lookup d.key o.option_index))

pub shim_add_option-new :
    (d : ShimOption) (o : Options)
    → is_new d o ≡ true
    → shim_add_option d o ≡ record o {
      option_index = insert d.key (length o.option_defs) o.option_index;
      option_defs = o.option_defs ++ d ∷ [];
    }
unfolding shim_add_option
shim_add_option-new d o h = ground arith

pub shim_add_option-old :
    (d : ShimOption) (o : Options) → is_new d o ≡ false → shim_add_option d o ≡ o
unfolding shim_add_option
shim_add_option-old d o h = ground arith

add-IsIndexed :
    (d : ShimOption) (o : Options)
    → is_new d o ≡ true
    → IsIndexed o
    → IsIndexed (shim_add_option d o)
add-IsIndexed d o new ix = rw (shim_add_option-new d o new) (λ k i h.
    let law = lookup-insert d.key k (length o.option_defs) o.option_index in
    elim (Bool-cases (bytes_eq d.key k)) [
      | inl same ↦
          let at : length o.option_defs ≡ i = ground (arith, law) in
          (d, rw (← at) (get_elem?-last o.option_defs d), (bytes_eq_iff d.key k).0 same)
      | inr other ↦
          let old : lookup k o.option_index ≡ some i = ground (arith, law) in
          let (d', e', k') = ix k i old in (d', get_elem?-append o.option_defs (d ∷ []) i d' e', k')
    ])

add-IsKnown :
    (d : ShimOption) (o : Options) → is_new d o ≡ true → IsKnown o → IsKnown (shim_add_option d o)
add-IsKnown d o new kn =
    rw (shim_add_option-new d o new)
      (λ k h. kn k (ground (arith, lookup-insert d.key k (length o.option_defs) o.option_index)))

pub shim_add_option-IsSound :
    (d : ShimOption) (o : Options) → IsSound o → IsSound (shim_add_option d o)
shim_add_option-IsSound d o s = elim (Bool-cases (is_new d o)) [
  | inl new ↦ record {
    indexed = add-IsIndexed d o new s.indexed;
    known = add-IsKnown d o new s.known;
  }
  | inr old ↦ rw (shim_add_option-old d o old) s
]

-- What a key stands for: its override, or the default of its definition.
unfoldable pub effective : List ℕ → Options → Option (List ℕ)
effective k o = elim (lookup k o.option_index) [
  | none ↦ none
  | some i ↦ elim (lookup k o.option_overrides) [
    | some ov ↦ some ov
    | none ↦ elim (get_elem? o.option_defs i) [ none ↦ none | some d ↦ some d.def ]
  ]
]

unfoldable pub served : List ℕ → List ℕ → Options → Options
served k v o = record o { served_values = insert k v o.served_values }

-- A key of the index is served.
pub serve-effective :
    (k : List ℕ) (i : ℕ) (o : Options)
    → IsSound o
    → lookup k o.option_index ≡ some i
    → (v : List ℕ) × (serve k i o ≡ value (v, served k v o)) × (effective k o ≡ some v)
unfolding serve effective served
serve-effective k i o s h = elim (Option-cases (lookup k o.option_overrides)) [
  | inl e ↦ let (d, e', k') = s.indexed k i h in (d.def, ground arith, ground arith)
  | inr (v, e) ↦ (v, ground arith, ground arith)
]

pub served-effective : (k v j : List ℕ) (o : Options) → effective j (served k v o) ≡ effective j o
unfolding effective served
served-effective k v j o = refl

pub served-IsSound : (k v : List ℕ) (o : Options) → IsSound o → IsSound (served k v o)
unfolding served
served-IsSound k v o s = record { indexed = s.indexed; known = s.known }
