-- ===== src/Shim/Json/Read.antt =====
-- A reader of the JSON that the frontend is given for the options of a core
-- (include/retropark/retropark_abi.h, `core_options_json`): an array of objects with the members key,
-- desc, info, default and values, in this order.
use retro_park.Base.{
  ℕ, zero, suc, ◌+◌, ◌-◌, ◌*◌, Option, none, some, List, [], ◌∷◌, ◌++◌, ltb, leb, ◌&&◌, ◌==◌,
  if◌then◌else◌,
}
use retro_park.Base.Bytes.{codes}
use retro_park.Shim.Options.{ShimOption}

infixl 5 ◌>>=◌
abbrev pub ◌>>=◌ : {A B : Type 0} → Option A → (A → Option B) → Option B
none >>= f = none
some a >>= f = f a

-- Where a reader stands within a string: between its bytes, after a backslash, or among the digits of
-- an escaped number, with the digits that follow the next one and the number so far
pub data Place : Type 0 where
  plain : Place
  escaped : Place
  digits : ℕ → ℕ → Place

pub data Move : Type 0 where
  stop : Move
  refuse : Move
  emit : ℕ → Place → Move
  go : Place → Move

abbrev pub hex_value : ℕ → Option ℕ
hex_value c =
    if leb 48 c && leb c 57
    then some (c - 48)
    else if leb 97 c && leb c 102
    then some (c - 87)
    else none

abbrev pub add_digit : ℕ → ℕ → ℕ → Move
add_digit zero n d = emit (n * 16 + d) plain
add_digit (suc left) n d = go (digits left (n * 16 + d))

pub move : Place → ℕ → Move
move plain c =
    if c == 34
    then stop
    else if c == 92
    then go escaped
    else if ltb c 32
    then refuse
    else emit c plain
move escaped c =
    if c == 34
    then emit 34 plain
    else if c == 92
    then emit 92 plain
    else if c == 110
    then emit 10 plain
    else if c == 114
    then emit 13 plain
    else if c == 116
    then emit 9 plain
    else if c == 117
    then go (digits 3 0)
    else refuse
move (digits left n) c = elim (hex_value c) [ none ↦ refuse | some d ↦ add_digit left n d ]

-- The string up to its closing quote, and what follows it
unfoldable pub read_string : Place → List ℕ → Option (List ℕ × List ℕ)
unfolding move
read_string p [] = none
read_string p (c ∷ cs) = elim (move p c) [
  | stop ↦ some ([], cs)
  | refuse ↦ none
  | emit a q ↦ read_string q cs >>= λ (r : List ℕ × List ℕ). some (a ∷ r.0, r.1)
  | go q ↦ read_string q cs
]

unfoldable pub strip : List ℕ → List ℕ → Option (List ℕ)
strip [] cs = some cs
strip (x ∷ xs) [] = none
strip (x ∷ xs) (c ∷ cs) = let rest = strip xs cs in if x == c then rest else none

-- A member of an object whose value is a string
unfoldable pub read_member : List ℕ → List ℕ → Option (List ℕ × List ℕ)
unfolding read_string strip
read_member name cs =
    strip (34 ∷ name ++ 34 ∷ b':' ∷ 34 ∷ []) cs >>= λ (r : List ℕ). read_string plain r

-- Items between commas, up to a closing bracket
unfoldable pub read_more :
    {A : Type 0} → (List ℕ → Option (A × List ℕ)) → ℕ → List ℕ → Option (List A × List ℕ)
read_more read zero cs = none
read_more read (suc fuel) [] = none
read_more read (suc fuel) (c ∷ cs) =
    let rest = read cs >>= λ r. read_more read fuel r.1 >>= λ rs. some (r.0 ∷ rs.0, rs.1) in
    if c == b']' then some ([], cs) else if c == b',' then rest else none

unfoldable pub read_items :
    {A : Type 0} → (List ℕ → Option (A × List ℕ)) → ℕ → List ℕ → Option (List A × List ℕ)
unfolding read_more
read_items read fuel [] = none
read_items read fuel (c ∷ cs) =
    if c == b']'
    then some ([], cs)
    else read (c ∷ cs) >>= λ r. read_more read fuel r.1 >>= λ rs. some (r.0 ∷ rs.0, rs.1)

unfoldable pub read_value : List ℕ → Option ((List ℕ × List ℕ) × List ℕ)
unfolding read_member strip
read_value cs = strip (b'{' ∷ []) cs >>= λ (c1 : List ℕ).
    read_member (codes "value") c1 >>= λ (v : List ℕ × List ℕ).
    strip (b',' ∷ []) v.1 >>= λ (c2 : List ℕ).
    read_member (codes "label") c2 >>= λ (l : List ℕ × List ℕ).
    strip (b'}' ∷ []) l.1 >>= λ (c3 : List ℕ). some ((v.0, l.0), c3)

unfoldable pub read_option : ℕ → List ℕ → Option (ShimOption × List ℕ)
unfolding read_member strip read_items read_value
read_option fuel cs = strip (b'{' ∷ []) cs >>= λ (c1 : List ℕ).
    read_member (codes "key") c1 >>= λ (k : List ℕ × List ℕ).
    strip (b',' ∷ []) k.1 >>= λ (c2 : List ℕ).
    read_member (codes "desc") c2 >>= λ (d : List ℕ × List ℕ).
    strip (b',' ∷ []) d.1 >>= λ (c3 : List ℕ).
    read_member (codes "info") c3 >>= λ (i : List ℕ × List ℕ).
    strip (b',' ∷ []) i.1 >>= λ (c4 : List ℕ).
    read_member (codes "default") c4 >>= λ (f : List ℕ × List ℕ).
    strip (b',' ∷ 34 ∷ codes "values" ++ 34 ∷ b':' ∷ b'[' ∷ []) f.1 >>= λ (c5 : List ℕ).
    read_items read_value fuel c5 >>= λ (vs : List (List ℕ × List ℕ) × List ℕ).
    strip (b'}' ∷ []) vs.1 >>= λ (c6 : List ℕ).
    some (record { key = k.0; desc = d.0; info = i.0; def = f.0; values = vs.0 }, c6)

-- The whole array; `fuel` bounds the items of a list
unfoldable pub read_options : ℕ → List ℕ → Option (List ShimOption × List ℕ)
unfolding strip read_items read_option
read_options fuel cs =
    strip (b'[' ∷ []) cs >>= λ (c1 : List ℕ). read_items (read_option fuel) fuel c1
