-- ===== src/Shim/Json.antt =====
-- cores/libretro_shim/LibretroShim.cpp: the options of a core as JSON, for the frontend.
pub mod Read
pub mod RoundTrip
mod Tests
use retro_park.Base.{ℕ, ◌+◌, ◌-◌, ◌/◌, ◌%◌, List, [], ◌∷◌, ◌++◌, ltb, ◌==◌, if◌then◌else◌}
use retro_park.Base.Bytes.{codes}
use retro_park.Shim.Options.{ShimOption}

-- A digit of `%x`
abbrev pub hex_digit : ℕ → ℕ
hex_digit d = if ltb d 10 then b'0' + d else b'a' + d - 10

abbrev pub quote : ℕ
quote = 34

abbrev pub backslash : ℕ
backslash = 92

-- The `switch` of `json_escape` on a byte
pub escape_byte : ℕ → List ℕ
escape_byte c =
    if c == quote
    then backslash ∷ quote ∷ []
    else if c == backslash
    then backslash ∷ backslash ∷ []
    else if c == 10
    then backslash ∷ b'n' ∷ []
    else if c == 13
    then backslash ∷ b'r' ∷ []
    else if c == 9
    then backslash ∷ b't' ∷ []
    else if ltb c 0x20
    then backslash ∷ b'u' ∷ b'0' ∷ b'0' ∷ hex_digit (c / 16) ∷ hex_digit (c % 16) ∷ []
    else c ∷ []

pub json_escape : List ℕ → List ℕ
unfolding escape_byte
json_escape [] = []
json_escape (c ∷ cs) = escape_byte c ++ json_escape cs

-- `\"` with a name or a text, as it stands between two pieces of the output
abbrev pub quoted : List ℕ → List ℕ → List ℕ
quoted s rest = quote ∷ json_escape s ++ quote ∷ rest

abbrev pub named : List ℕ → List ℕ → List ℕ
named name rest = quote ∷ name ++ quote ∷ b':' ∷ rest

pub value_json : List ℕ × List ℕ → List ℕ → List ℕ
unfolding json_escape
value_json (v, label) rest =
    b'{'
    ∷ named (codes "value") (quoted v (b',' ∷ named (codes "label") (quoted label (b'}' ∷ rest))))

-- The loop over `o.values`, from its second round on with a comma first
pub more_values : List (List ℕ × List ℕ) → List ℕ → List ℕ
unfolding value_json
more_values [] rest = rest
more_values (v ∷ vs) rest = b',' ∷ value_json v (more_values vs rest)

pub values_json : List (List ℕ × List ℕ) → List ℕ → List ℕ
unfolding more_values
values_json [] rest = rest
values_json (v ∷ vs) rest = value_json v (more_values vs rest)

pub option_json : ShimOption → List ℕ → List ℕ
unfolding values_json
option_json o rest =
    b'{'
    ∷ named (codes "key") (
        quoted o.key (
          b','
          ∷ named (codes "desc") (
              quoted o.desc (
                b','
                ∷ named (codes "info") (
                    quoted o.info (
                      b','
                      ∷ named (codes "default") (
                          quoted o.def (
                            b','
                            ∷ named (codes "values")
                                (b'[' ∷ values_json o.values (b']' ∷ b'}' ∷ rest))))))))))

pub more_options : List ShimOption → List ℕ → List ℕ
unfolding option_json
more_options [] rest = rest
more_options (o ∷ os) rest = b',' ∷ option_json o (more_options os rest)

pub options_json : List ShimOption → List ℕ → List ℕ
unfolding more_options
options_json [] rest = rest
options_json (o ∷ os) rest = option_json o (more_options os rest)

-- The text that is cached and handed out
pub sh_core_options_json : List ShimOption → List ℕ
unfolding options_json
sh_core_options_json option_defs = b'[' ∷ options_json option_defs (b']' ∷ [])
