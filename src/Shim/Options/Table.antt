-- ===== src/Shim/Options/Table.antt =====
-- cores/libretro_shim/LibretroShim.cpp: the options behind their calls are a table of values with a
-- flag, whichever of the two sides asks.
use retro_park.Base.{
  ℕ, Bool, true, false, not, ◌&&◌, ◌||◌, ◌≡◌, Option, none, some, List, [], ◌∷◌, if◌then◌else◌,
}
use retro_park.Base.Bytes.{bytes_eq}
use retro_park.Abi.{RpResult}
use retro_park.Loader.CoreLoader.{Access, value, ◌>>=◌}
use retro_park.Shim.Options.{
  ShimOption, Options, Variable, Definition, is_empty, is_some, parse_variable, read_definition,
  set_variables, set_core_options, get_variable, get_variable_update, sh_core_option_get,
  sh_core_option_set,
}
use retro_park.Shim.Options.Indexed.{IsSound, effective}

-- The calls of the core and of the frontend that concern options
pub data OptionCall : Type 0 where
  variables : List Variable → OptionCall
  definitions : List Definition → OptionCall
  ask : Option (List ℕ) → OptionCall
  poll : OptionCall
  option_get : List ℕ → OptionCall
  option_set : Option (List ℕ) → Option (List ℕ) → OptionCall

pub data Reply : Type 0 where
  quiet : Reply
  text : Option (List ℕ) → Reply
  flag : Bool → Reply
  code : RpResult → Reply

abbrev pub as_text : Access (Option (List ℕ) × Options) → Access (Reply × Options)
as_text a = a >>= λ (r : Option (List ℕ) × Options). value (text r.0, r.1)

unfoldable pub perform : OptionCall → Options → Access (Reply × Options)
perform (variables vs) o = value (quiet, set_variables vs o)
perform (definitions ds) o = value (quiet, set_core_options ds o)
perform (ask k) o = as_text (get_variable k o)
perform poll o = let r = get_variable_update o in value (flag r.0, r.1)
perform (option_get k) o = as_text (sh_core_option_get (some k) o)
perform (option_set k v) o = let r = sh_core_option_set k v o in value (code r.0, r.1)

unfoldable pub performs : List OptionCall → Options → Access (List Reply × Options)
unfolding perform
performs [] o = value ([], o)
performs (c ∷ cs) o = perform c o >>= λ (r : Reply × Options).
    performs cs r.1 >>= λ (rs : List Reply × Options). value (r.0 ∷ rs.0, rs.1)

-- A table of values, and whether one has been set since the last poll
pub record Table : Type 0 where
  pub setting : List ℕ → Option (List ℕ)
  pub dirty : Bool

abbrev pub empty_table : Table
empty_table = record { setting = λ k. none; dirty = false }

-- The first declaration of a key counts, with its default.
abbrev pub declare : ShimOption → Table → Table
declare d t = record t {
  setting = λ j.
      if bytes_eq d.key j && not (is_empty d.key || is_some (t.setting d.key))
      then some d.def
      else t.setting j;
}

unfoldable pub declare_variables : List Variable → Table → Table
declare_variables [] t = t
declare_variables (v ∷ vs) t = declare_variables vs (declare (parse_variable v) t)

unfoldable pub declare_definitions : List Definition → Table → Table
declare_definitions [] t = t
declare_definitions (d ∷ ds) t = declare_definitions ds (declare (read_definition d) t)

abbrev pub at_key : Option (List ℕ) → Table → Option (List ℕ)
at_key none t = none
at_key (some k) t = t.setting k

abbrev pub change : Option (List ℕ) → Option (List ℕ) → Table → Reply × Table
change none v t = (code RpResult.bad_arg, t)
change (some k) none t = (code RpResult.bad_arg, t)
change (some k) (some v) t =
    if is_some (t.setting k)
    then (
      code RpResult.ok,
      record t { setting = λ j. if bytes_eq k j then some v else t.setting j; dirty = true },
    )
    else (code RpResult.not_found, t)

unfoldable pub answer : OptionCall → Table → Reply × Table
unfolding declare_variables declare_definitions
answer (variables vs) t = (quiet, declare_variables vs t)
answer (definitions ds) t = (quiet, declare_definitions ds t)
answer (ask k) t = (text (at_key k t), t)
answer poll t = (flag t.dirty, record t { dirty = false })
answer (option_get k) t = (text (t.setting k), t)
answer (option_set k v) t = change k v t

unfoldable pub answers : List OptionCall → Table → List Reply
unfolding answer
answers [] t = []
answers (c ∷ cs) t = (answer c t).0 ∷ answers cs (answer c t).1

-- The options hold what the table says.
pub record Holds (o : Options) (t : Table) : Type 0 where
  pub sound : IsSound o
  pub holds : (j : List ℕ) → effective j o ≡ t.setting j
  pub latch : o.options_dirty ≡ t.dirty
