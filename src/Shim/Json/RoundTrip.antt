-- ===== src/Shim/Json/RoundTrip.antt =====
-- cores/libretro_shim/LibretroShim.cpp: the JSON of the options says what they are.
use retro_park.Base.{
  ℕ, zero, suc, ◌/◌, ◌%◌, ◌≤◌, ◌<◌, ◌≡◌, refl, sym, ap, ◌∙◌, arith, some, List, [], ◌∷◌, ◌++◌,
  length, append_assoc,
}
use retro_park.Base.Bytes.{codes}
use retro_park.Shim.Options.{ShimOption}
use retro_park.Shim.Json.{
  hex_digit, escape_byte, json_escape, quoted, named, value_json, more_values, values_json,
  option_json, more_options, options_json, sh_core_options_json,
}
use retro_park.Shim.Json.Read.{
  ◌>>=◌, plain, hex_value, read_string, strip, read_member, read_more, read_items, read_value,
  read_option, read_options,
}

hex_value-hex_digit : (d : ℕ) → d < 16 → hex_value (hex_digit d) ≡ some d
hex_value-hex_digit d h = ground arith

-- One byte is read back from what it is escaped to.
read_string-escape_byte :
    (c : ℕ) (cs : List ℕ)
    → read_string plain (escape_byte c ++ cs)
      ≡ (read_string plain cs >>= λ (r : List ℕ × List ℕ). some (c ∷ r.0, r.1))
unfolding escape_byte read_string
read_string-escape_byte c cs =
    ground (arith, hex_value-hex_digit (c / 16), hex_value-hex_digit (c % 16))

read_string-json_escape :
    (s cs : List ℕ) → read_string plain (json_escape s ++ 34 ∷ cs) ≡ some (s, cs)
unfolding json_escape read_string
read_string-json_escape [] cs = refl
read_string-json_escape (c ∷ s) cs =
    ap (read_string plain) (append_assoc (escape_byte c) (json_escape s) (34 ∷ cs))
    ∙ read_string-escape_byte c (json_escape s ++ 34 ∷ cs)
    ∙ ap (λ o. o >>= λ (r : List ℕ × List ℕ). some (c ∷ r.0, r.1)) (read_string-json_escape s cs)

strip_append : (xs cs : List ℕ) → strip xs (xs ++ cs) ≡ some cs
unfolding strip
strip_append [] cs = refl
strip_append (x ∷ xs) cs = ground (arith, strip_append xs cs)

read_member-quoted :
    (name s cs : List ℕ) → read_member name (named name (quoted s cs)) ≡ some (s, cs)
unfolding read_member
read_member-quoted name s cs =
    let open_quote : List ℕ = 34 ∷ name ++ 34 ∷ b':' ∷ 34 ∷ [] in
    let text = json_escape s ++ 34 ∷ cs in
    let e : named name (quoted s cs) ≡ open_quote ++ text =
      ap (λ l. 34 ∷ l) (sym (append_assoc name (34 ∷ b':' ∷ 34 ∷ []) text)) in
    ap (read_member name) e
    ∙ ap (λ o. o >>= λ (r : List ℕ). read_string plain r) (strip_append open_quote text)
    ∙ read_string-json_escape s cs

read_value-value_json :
    (v : List ℕ × List ℕ) (rest : List ℕ) → read_value (value_json v rest) ≡ some (v, rest)
unfolding read_value value_json strip
read_value-value_json (v, label) rest =
    let tail = b'}' ∷ rest in
    let middle = b',' ∷ named (codes "label") (quoted label tail) in
    rw (read_member-quoted (codes "value") v middle, read_member-quoted (codes "label") label tail)
      refl

read_more-more_values :
    (vs : List (List ℕ × List ℕ)) (rest : List ℕ) (fuel : ℕ)
    → length vs < fuel
    → read_more read_value fuel (more_values vs (b']' ∷ rest)) ≡ some (vs, rest)
unfolding read_more more_values
read_more-more_values vs rest zero h = absurd (omega arith)
read_more-more_values [] rest (suc fuel) h = refl
read_more-more_values (v ∷ vs) rest (suc fuel) h =
    rw
      (
        read_value-value_json v (more_values vs (b']' ∷ rest)),
        read_more-more_values vs rest fuel (omega arith),
      )
      refl

read_items-values_json :
    (vs : List (List ℕ × List ℕ)) (rest : List ℕ) (fuel : ℕ)
    → length vs ≤ fuel
    → read_items read_value fuel (values_json vs (b']' ∷ rest)) ≡ some (vs, rest)
unfolding read_items values_json value_json
read_items-values_json [] rest fuel h = refl
read_items-values_json (v ∷ vs) rest fuel h =
    ap
      (λ o. o >>= λ (r : (List ℕ × List ℕ) × List ℕ).
        read_more read_value fuel r.1 >>= λ (rs : List (List ℕ × List ℕ) × List ℕ).
        some (r.0 ∷ rs.0, rs.1))
      (read_value-value_json v (more_values vs (b']' ∷ rest)))
    ∙ rw (read_more-more_values vs rest fuel (omega arith)) refl

read_option-option_json :
    (o : ShimOption) (rest : List ℕ) (fuel : ℕ)
    → length o.values ≤ fuel
    → read_option fuel (option_json o rest) ≡ some (o, rest)
unfolding read_option option_json strip
read_option-option_json o rest fuel h =
    let tail = b'}' ∷ rest in
    let t4 = b',' ∷ named (codes "values") (b'[' ∷ values_json o.values (b']' ∷ tail)) in
    let t3 = b',' ∷ named (codes "default") (quoted o.def t4) in
    let t2 = b',' ∷ named (codes "info") (quoted o.info t3) in
    let t1 = b',' ∷ named (codes "desc") (quoted o.desc t2) in
    rw
      (
        read_member-quoted (codes "key") o.key t1,
        read_member-quoted (codes "desc") o.desc t2,
        read_member-quoted (codes "info") o.info t3,
        read_member-quoted (codes "default") o.def t4,
        read_items-values_json o.values tail fuel h,
      )
      refl

-- The values of each option are at most `fuel`.
abbrev pub IsWithin : ℕ → List ShimOption → Type 0
IsWithin fuel [] = Unit {0}
IsWithin fuel (o ∷ os) = (length o.values ≤ fuel) × IsWithin fuel os

read_more-more_options :
    (os : List ShimOption) (rest : List ℕ) (n fuel : ℕ)
    → IsWithin n os
    → length os < fuel
    → read_more (read_option n) fuel (more_options os (b']' ∷ rest)) ≡ some (os, rest)
unfolding read_more more_options
read_more-more_options os rest n zero w h = absurd (omega arith)
read_more-more_options [] rest n (suc fuel) w h = refl
read_more-more_options (o ∷ os) rest n (suc fuel) w h =
    rw
      (
        read_option-option_json o (more_options os (b']' ∷ rest)) n w.0,
        read_more-more_options os rest n fuel w.1 (omega arith),
      )
      refl

read_items-options_json :
    (os : List ShimOption) (rest : List ℕ) (n fuel : ℕ)
    → IsWithin n os
    → length os ≤ fuel
    → read_items (read_option n) fuel (options_json os (b']' ∷ rest)) ≡ some (os, rest)
unfolding read_items options_json option_json
read_items-options_json [] rest n fuel w h = refl
read_items-options_json (o ∷ os) rest n fuel w h =
    ap
      (λ r. r >>= λ (r : ShimOption × List ℕ).
        read_more (read_option n) fuel r.1 >>= λ (rs : List ShimOption × List ℕ).
        some (r.0 ∷ rs.0, rs.1))
      (read_option-option_json o (more_options os (b']' ∷ rest)) n w.0)
    ∙ rw (read_more-more_options os rest n fuel w.1 (omega arith)) refl

-- The JSON of any options, whatever bytes stand in their texts, is read back as these options, by a
-- reader that has fuel for as many options and for the values of each.
pub read_options-sh_core_options_json :
    (os : List ShimOption) (fuel : ℕ)
    → IsWithin fuel os
    → length os ≤ fuel
    → read_options fuel (sh_core_options_json os) ≡ some (os, [])
unfolding read_options sh_core_options_json
read_options-sh_core_options_json os fuel w h = read_items-options_json os [] fuel fuel w h
