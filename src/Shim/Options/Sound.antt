-- ===== src/Shim/Options/Sound.antt =====
-- cores/libretro_shim/LibretroShim.cpp: every call of the core about options keeps them sound.
use retro_park.Base.{ℕ, Option, none, some, List, [], ◌∷◌, Bool-cases, inl, inr}
use retro_park.Base.Dict.{lookup}
use retro_park.Loader.CoreLoader.Yields.{Yields, yields, option-Yields}
use retro_park.Shim.Options.{
  Options, Variable, Definition, parse_variable, read_definition, shim_add_option, set_variables,
  set_core_options, get_variable, get_variable_update, sh_core_option_get, sh_core_option_set,
  is_some,
}
use retro_park.Shim.Options.Values.{set-IsSound}
use retro_park.Shim.Options.Indexed.{
  IsSound, shim_add_option-IsSound, serve-effective, served-IsSound,
}

pub set_variables-IsSound :
    (vs : List Variable) (o : Options) → IsSound o → IsSound (set_variables vs o)
unfolding set_variables
set_variables-IsSound [] o s = s
set_variables-IsSound (v ∷ vs) o s =
    let d = parse_variable v in
    set_variables-IsSound vs (shim_add_option d o) (shim_add_option-IsSound d o s)

pub set_core_options-IsSound :
    (ds : List Definition) (o : Options) → IsSound o → IsSound (set_core_options ds o)
unfolding set_core_options
set_core_options-IsSound [] o s = s
set_core_options-IsSound (d ∷ ds) o s =
    let d' = read_definition d in
    set_core_options-IsSound ds (shim_add_option d' o) (shim_add_option-IsSound d' o s)

pub get_variable-Yields :
    (k : Option (List ℕ)) (o : Options) → IsSound o → Yields (λ r. IsSound r.1) (get_variable k o)
unfolding get_variable
get_variable-Yields none o s = yields _ s
get_variable-Yields (some k) o s =
    option-Yields (lookup k o.option_index) (λ missing. yields _ s)
      (λ i e.
        let (v, served_e, eff) = serve-effective k i o s e in
        rw served_e (yields _ (served-IsSound k v o s)))

pub get_variable_update-IsSound : (o : Options) → IsSound o → IsSound (get_variable_update o).1
unfolding get_variable_update
get_variable_update-IsSound o s = record { indexed = s.indexed; known = s.known }

pub option_get-Yields :
    (k : List ℕ) (o : Options)
    → IsSound o
    → Yields (λ r. IsSound r.1) (sh_core_option_get (some k) o)
unfolding sh_core_option_get
option_get-Yields k o s =
    option-Yields (lookup k o.option_index) (λ missing. yields _ s)
      (λ i e.
        let (v, served_e, eff) = serve-effective k i o s e in
        rw served_e (yields _ (served-IsSound k v o s)))

pub option_set-IsSound :
    (k v : Option (List ℕ)) (o : Options) → IsSound o → IsSound (sh_core_option_set k v o).1
unfolding sh_core_option_set
option_set-IsSound none v o s = s
option_set-IsSound (some k) none o s = s
option_set-IsSound (some k) (some v) o s = elim (Bool-cases (is_some (lookup k o.option_index))) [
  | inl known ↦ rw known (set-IsSound k v o s known)
  | inr unknown ↦ rw unknown s
]
