-- ===== src/Shim/Options.antt =====
-- cores/libretro_shim/LibretroShim.cpp: the options of a core, as it declares them to the shim, and
-- their values. Strings are lists of bytes without a null byte; a null pointer is `none`.
pub mod Indexed
pub mod Table
pub mod Declares
pub mod Values
pub mod Sound
mod Tests
use retro_park.Base.{
  ℕ, suc, ◌+◌, Bool, true, false, not, ◌&&◌, ◌||◌, Option, none, some, List, [], ◌∷◌, ◌++◌, length,
  take, get_elem?, ◌==◌, if◌then◌else◌,
}
use retro_park.Base.Dict.{Dict, lookup, insert}
use retro_park.Abi.{RpResult}
use retro_park.Loader.CoreLoader.{Access, fault, value, access, ◌>>=◌}

pub record ShimOption : Type 0 where
  pub key : List ℕ
  pub desc : List ℕ
  pub info : List ℕ
  pub def : List ℕ
  -- each value with its label
  pub values : List (List ℕ × List ℕ)

-- The fields of `Shim` that hold options
pub record Options : Type 0 where
  pub option_defs : List ShimOption
  pub option_index : Dict ℕ
  pub option_overrides : Dict (List ℕ)
  pub options_dirty : Bool
  pub served_values : Dict (List ℕ)

-- Those fields of a new `Shim`
abbrev pub new_options : Options
new_options = record {
  option_defs = [];
  option_index = [];
  option_overrides = [];
  options_dirty = false;
  served_values = [];
}

abbrev pub is_empty {ℓ} : {A : Type ℓ} → List A → Bool
is_empty [] = true
is_empty (x ∷ xs) = false

abbrev pub is_some {ℓ} : {A : Type ℓ} → Option A → Bool
is_some none = false
is_some (some a) = true

-- `p ? p : ""`
abbrev pub or_empty : Option (List ℕ) → List ℕ
or_empty none = []
or_empty (some s) = s

pub shim_add_option : ShimOption → Options → Options
shim_add_option d o =
    if is_empty d.key || is_some (lookup d.key o.option_index) then o else record o {
      option_index = insert d.key (length o.option_defs) o.option_index;
      option_defs = o.option_defs ++ d ∷ [];
    }

-- `vals.empty() ? std::string() : vals.front().first`
abbrev pub front_value : List (List ℕ × List ℕ) → List ℕ
front_value [] = []
front_value ((v, label) ∷ vals) = v

-- A text before and after its first semicolon
pub split_semi : List ℕ → Option (List ℕ × List ℕ)
split_semi [] = none
split_semi (c ∷ cs) =
    let rest = split_semi cs in
    if c == b';'
    then some ([], cs)
    else elim rest [ none ↦ none | some (before, after) ↦ some (c ∷ before, after) ]

pub skip_spaces : List ℕ → List ℕ
skip_spaces [] = []
skip_spaces (c ∷ cs) = if c == b' ' then skip_spaces cs else c ∷ cs

abbrev pub to_first : ℕ → List (List ℕ) → List (List ℕ)
to_first c [] = (c ∷ []) ∷ []
to_first c (t ∷ ts) = (c ∷ t) ∷ ts

-- The texts between the bars, empty ones included
pub split_bars : List ℕ → List (List ℕ)
split_bars [] = [] ∷ []
split_bars (c ∷ cs) = let ts = split_bars cs in if c == b'|' then [] ∷ ts else to_first c ts

-- `if (!tok.empty()) vals.emplace_back(tok, tok);`, for each text
pub keep_values : List (List ℕ) → List (List ℕ × List ℕ)
keep_values [] = []
keep_values (t ∷ ts) = let rest = keep_values ts in if is_empty t then rest else (t, t) ∷ rest

-- `retro_variable`, as a core declares it
pub record Variable : Type 0 where
  pub key : List ℕ
  pub value_text : Option (List ℕ)

pub parse_variable : Variable → ShimOption
unfolding split_semi skip_spaces split_bars keep_values
parse_variable v = elim (split_semi (or_empty v.value_text)) [
  | none ↦ record { key = v.key; desc = or_empty v.value_text; info = []; def = []; values = [] }
  | some (desc, after) ↦
      let vals = keep_values (split_bars (skip_spaces after)) in
      record { key = v.key; desc = desc; info = []; def = front_value vals; values = vals }
]

-- `retro_core_option_definition` and `retro_core_option_v2_definition`, with the values up to the
-- first that is null
pub record Definition : Type 0 where
  pub key : List ℕ
  pub desc : Option (List ℕ)
  pub info : Option (List ℕ)
  pub default_value : Option (List ℕ)
  pub values : List (List ℕ × Option (List ℕ))

-- RETRO_NUM_CORE_OPTION_VALUES_MAX
abbrev pub num_values_max : ℕ
num_values_max = 128

pub label_values : List (List ℕ × Option (List ℕ)) → List (List ℕ × List ℕ)
label_values [] = []
label_values ((v, label) ∷ vs) = (v, elim label [ none ↦ v | some l ↦ l ]) ∷ label_values vs

pub read_definition : Definition → ShimOption
unfolding label_values
read_definition d =
    let vals = label_values (take num_values_max d.values) in
    let def = or_empty d.default_value in
    record {
      key = d.key;
      desc = or_empty d.desc;
      info = or_empty d.info;
      def = if is_empty def && not (is_empty vals) then front_value vals else def;
      values = vals;
    }

-- The loops over the declarations of a core, up to the one whose key is null
pub set_variables : List Variable → Options → Options
unfolding parse_variable shim_add_option
set_variables [] o = o
set_variables (v ∷ vs) o = set_variables vs (shim_add_option (parse_variable v) o)

pub set_core_options : List Definition → Options → Options
unfolding read_definition shim_add_option
set_core_options [] o = o
set_core_options (d ∷ ds) o = set_core_options ds (shim_add_option (read_definition d) o)

-- The override of a key, or the default of its definition, put into the storage of the key
pub serve : List ℕ → ℕ → Options → Access (List ℕ × Options)
serve k i o =
    (elim (lookup k o.option_overrides) [
      | some ov ↦ value ov
      | none ↦ access (get_elem? o.option_defs i) >>= λ (d : ShimOption). value d.def
    ])
    >>= λ (eff : List ℕ). value (eff, record o { served_values = insert k eff o.served_values })

pub get_variable : Option (List ℕ) → Options → Access (Option (List ℕ) × Options)
unfolding serve
get_variable none o = value (none, o)
get_variable (some k) o = elim (lookup k o.option_index) [
  | none ↦ value (none, o)
  | some i ↦ serve k i o >>= λ (r : List ℕ × Options). value (some r.0, r.1)
]

pub get_variable_update : Options → Bool × Options
get_variable_update o = (o.options_dirty, record o { options_dirty = false })

-- For a null key the map is asked for the empty one, and then for a null string.
pub sh_core_option_get : Option (List ℕ) → Options → Access (Option (List ℕ) × Options)
unfolding serve
sh_core_option_get key o = elim (lookup (or_empty key) o.option_index) [
  | none ↦ value (none, o)
  | some i ↦
      access key >>= λ (k : List ℕ). serve k i o >>= λ (r : List ℕ × Options). value (some r.0, r.1)
]

pub sh_core_option_set : Option (List ℕ) → Option (List ℕ) → Options → RpResult × Options
sh_core_option_set none v o = (RpResult.bad_arg, o)
sh_core_option_set (some k) none o = (RpResult.bad_arg, o)
sh_core_option_set (some k) (some v) o =
    if not (is_some (lookup k o.option_index)) then (RpResult.not_found, o) else (
      RpResult.ok,
      record o { option_overrides = insert k v o.option_overrides; options_dirty = true },
    )
