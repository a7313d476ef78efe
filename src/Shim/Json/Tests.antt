-- ===== src/Shim/Json/Tests.antt =====
-- An option whose texts hold a quote, a backslash, a line break and a bell.
use retro_park.Base.{ℕ, ◌≡◌, refl, arith, some, List, [], ◌∷◌}
use retro_park.Base.Bytes.{codes}
use retro_park.Shim.Options.{ShimOption}
use retro_park.Shim.Json.{json_escape, sh_core_options_json}
use retro_park.Shim.Json.Read.{read_options}
use retro_park.Shim.Json.RoundTrip.{read_options-sh_core_options_json}

abbrev odd_text : List ℕ
odd_text = 34 ∷ 92 ∷ 10 ∷ 7 ∷ 31 ∷ 200 ∷ []

abbrev options : List ShimOption
options =
    record {
      key = codes "vol";
      desc = odd_text;
      info = [];
      def = codes "7";
      values = (codes "7", codes "7") ∷ (odd_text, codes "loud") ∷ [];
    }
    ∷ record { key = codes "x"; desc = []; info = []; def = []; values = [] }
    ∷ []

read_options-sh_core_options_json_example :
    read_options 2 (sh_core_options_json options) ≡ some (options, [])
read_options-sh_core_options_json_example =
    read_options-sh_core_options_json options 2 (omega arith) (omega arith)

odd_text-escaped :
    json_escape odd_text
    ≡ 92 ∷ 34 ∷ 92 ∷ 92 ∷ 92 ∷ b'n' ∷ 92 ∷ b'u' ∷ 48 ∷ 48 ∷ 48 ∷ b'7' ∷ 92 ∷ b'u' ∷ 48 ∷ 48 ∷ b'1'
      ∷ b'f' ∷ 200 ∷ []
unfolding json_escape
odd_text-escaped = refl
