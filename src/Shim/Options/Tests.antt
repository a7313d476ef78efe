-- ===== src/Shim/Options/Tests.antt =====
-- A core that declares one option in the legacy form and asks for it, and a frontend that sets it.
use retro_park.Base.{ℕ, ◌≡◌, refl, true, false, some, List, [], ◌∷◌}
use retro_park.Base.Bytes.{codes, bytes_eq}
use retro_park.Abi.{RpResult}
use retro_park.Loader.CoreLoader.{value}
use retro_park.Shim.Options.{Options, Variable, new_options, parse_variable}
use retro_park.Shim.Options.Table.{
  OptionCall, variables, ask, poll, option_get, option_set, quiet, text, flag, code, performs,
  empty_table, answers,
}
use retro_park.Shim.Options.Values.{performs-answers}

abbrev volume : List ℕ
volume = codes "vol"

abbrev declaration : Variable
declaration = record { key = volume; value_text = some (codes "Volume; 7|0||10") }

abbrev calls : List OptionCall
calls =
    variables (declaration ∷ [])
    ∷ ask (some volume)
    ∷ option_set (some volume) (some (codes "10"))
    ∷ option_set (some (codes "x")) (some (codes "1"))
    ∷ poll
    ∷ ask (some volume)
    ∷ option_get volume
    ∷ poll
    ∷ []

performs-answers_example :
    (o : Options) × (performs calls new_options ≡ value (answers calls empty_table, o))
performs-answers_example = performs-answers calls

calls-answers :
    answers calls empty_table
    ≡ quiet
      ∷ text (some (codes "7"))
      ∷ code RpResult.ok
      ∷ code RpResult.not_found
      ∷ flag true
      ∷ text (some (codes "10"))
      ∷ text (some (codes "10"))
      ∷ flag false
      ∷ []
unfolding answers parse_variable bytes_eq
calls-answers = refl
