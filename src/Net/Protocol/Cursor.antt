-- ===== src/Net/Protocol/Cursor.antt =====
-- The readers of src/net/NetProtocol.cpp at an offset: each returns the bytes that stand there, and
-- moves the offset past them.
use retro_park.Base.{
  ℕ, ◌+◌, ◌*◌, ◌/◌, ◌%◌, ◌^◌, ◌≤◌, ◌<◌, ◌≡◌, refl, ap, ◌∙◌, sym, some, List, [], ◌∷◌, ◌++◌,
  append_assoc, append-nil, arith, length, get_elem?, take, drop, All, length-drop, length-append,
  get_elem?-drop, drop-drop, take_append, drop_append,
}
use retro_park.Base.Bits.{bit_or_above}
use retro_park.Abi.{IsU16}
use retro_park.Net.Protocol.{
  got, byte_of, byte_at, bytes_at, add_size, put_u16, put_u32, put_u64, put_axes, get_bytes,
  get_u16, get_u32, get_u64, get_axes,
}

-- No vector is longer.
abbrev pub IsVector : List ℕ → Type 0
IsVector m = length m < 2 ^ 63

abbrev pub le16 : ℕ → List ℕ
le16 v = byte_of v 0 ∷ byte_of v 1 ∷ []

abbrev pub le32 : ℕ → List ℕ
le32 v = byte_of v 0 ∷ byte_of v 1 ∷ byte_of v 2 ∷ byte_of v 3 ∷ []

abbrev pub le64 : ℕ → List ℕ
le64 v =
    byte_of v 0
    ∷ byte_of v 1
    ∷ byte_of v 2
    ∷ byte_of v 3
    ∷ byte_of v 4
    ∷ byte_of v 5
    ∷ byte_of v 6
    ∷ byte_of v 7
    ∷ []

pub put_u16-le : (b : List ℕ) (v : ℕ) → put_u16 b v ≡ b ++ le16 v
unfolding put_u16
put_u16-le b v = append_assoc b (byte_of v 0 ∷ []) (byte_of v 1 ∷ [])

pub put_u32-le : (b : List ℕ) (v : ℕ) → put_u32 b v ≡ b ++ le32 v
unfolding put_u32
put_u32-le b v = simp append_assoc

pub put_u64-le : (b : List ℕ) (v : ℕ) → put_u64 b v ≡ b ++ le64 v
unfolding put_u64
put_u64-le b v = simp append_assoc

-- `xs` stands at offset `o` of `m`.
pub record At (m : List ℕ) (o : ℕ) (xs : List ℕ) : Type 0 where
  pub rest : drop o m ≡ xs
  pub within : o ≤ length m
  pub vector : IsVector m

pub At-length : {m : List ℕ} {o : ℕ} {xs : List ℕ} → At m o xs → length m ≡ o + length xs
At-length {m} {o} {xs} a = omega (arith, ap length a.rest, length-drop o m, a.within)

pub At-append : {m : List ℕ} {o : ℕ} (xs ys : List ℕ) → At m o (xs ++ ys) → At m (o + length xs) ys
At-append {m} {o} xs ys a = record {
  rest = sym (drop-drop (length xs) o m) ∙ ap (drop (length xs)) a.rest ∙ drop_append xs ys;
  within = omega (arith, At-length a, length-append xs ys);
  vector = a.vector;
}

pub At-byte :
    {m : List ℕ} {o : ℕ} {xs : List ℕ} (i b : ℕ)
    → At m o xs
    → get_elem? xs i ≡ some b
    → i < length xs
    → byte_at m (add_size o i) ≡ got b
At-byte {m} {o} {xs} i b a e h =
    ground (arith, add_size_eq, sym (get_elem?-drop o i m) ∙ ap (λ ys. get_elem? ys i) a.rest ∙ e)
  where
    add_size_eq : add_size o i ≡ o + i
    add_size_eq = omega (arith, At-length a, a.vector)

-- A sum of bytes, each shifted to its place.
abbrev word4 : ℕ → ℕ → ℕ → ℕ → ℕ
word4 a b c d = a + b * 2 ^ 8 + c * 2 ^ 16 + d * 2 ^ 24

get_bytes_4 :
    {m : List ℕ} {o : ℕ} {xs : List ℕ} (a b c d : ℕ)
    → At m o (a ∷ b ∷ c ∷ d ∷ xs)
    → a < 256
    → b < 256
    → c < 256
    → d < 256
    → get_bytes 4 0 m o 0 ≡ got (word4 a b c d)
unfolding get_bytes
get_bytes_4 a b c d h ha hb hc hd = ground (
  arith,
  At-byte 0 a h refl (omega arith),
  At-byte 1 b h refl (omega arith),
  At-byte 2 c h refl (omega arith),
  At-byte 3 d h refl (omega arith),
  bit_or_above 0 0 a (omega arith),
  bit_or_above 8 a b (omega arith),
  bit_or_above 16 (a + b * 2 ^ 8) c (omega arith),
  bit_or_above 24 (a + b * 2 ^ 8 + c * 2 ^ 16) d (omega arith),
)

get_bytes_8 :
    {m : List ℕ} {o : ℕ} {xs : List ℕ} (a b c d e f g h : ℕ)
    → At m o (a ∷ b ∷ c ∷ d ∷ e ∷ f ∷ g ∷ h ∷ xs)
    → word4 a b c d < 2 ^ 32
    → a < 256
    → b < 256
    → c < 256
    → d < 256
    → e < 256
    → f < 256
    → g < 256
    → h < 256
    → get_bytes 8 0 m o 0 ≡ got (word4 a b c d + word4 e f g h * 2 ^ 32)
unfolding get_bytes
get_bytes_8 a b c d e f g h w hw ha hb hc hd he hf hg hh =
    let v = word4 a b c d in
    ground (
      arith,
      At-byte 0 a w refl (omega arith),
      At-byte 1 b w refl (omega arith),
      At-byte 2 c w refl (omega arith),
      At-byte 3 d w refl (omega arith),
      At-byte 4 e w refl (omega arith),
      At-byte 5 f w refl (omega arith),
      At-byte 6 g w refl (omega arith),
      At-byte 7 h w refl (omega arith),
      bit_or_above 0 0 a (omega arith),
      bit_or_above 8 a b (omega arith),
      bit_or_above 16 (a + b * 2 ^ 8) c (omega arith),
      bit_or_above 24 (a + b * 2 ^ 8 + c * 2 ^ 16) d (omega arith),
      bit_or_above 32 v e (omega arith),
      bit_or_above 40 (v + e * 2 ^ 32) f (omega arith),
      bit_or_above 48 (v + e * 2 ^ 32 + f * 2 ^ 40) g (omega arith),
      bit_or_above 56 (v + e * 2 ^ 32 + f * 2 ^ 40 + g * 2 ^ 48) h (omega arith),
    )

word4_low : (v : ℕ) → word4 (byte_of v 0) (byte_of v 1) (byte_of v 2) (byte_of v 3) ≡ v % 2 ^ 32
word4_low v = omega arith

word4_high :
    (v : ℕ) → word4 (byte_of v 4) (byte_of v 5) (byte_of v 6) (byte_of v 7) ≡ v / 2 ^ 32 % 2 ^ 32
word4_high v = omega arith

room : {m : List ℕ} {o : ℕ} (xs ys : List ℕ) → At m o (xs ++ ys) → o + length xs ≤ length m
room xs ys a = omega (arith, At-length a, length-append xs ys)

pub get_u16-At :
    {m : List ℕ} {o : ℕ} {xs : List ℕ} (v : ℕ)
    → At m o (le16 v ++ xs)
    → v < 2 ^ 16
    → get_u16 m o ≡ got (v, o + 2)
unfolding get_u16
get_u16-At {m} {o} {xs} v a h = ground (
  arith,
  room (le16 v) xs a,
  a.vector,
  At-byte 0 (byte_of v 0) a refl (omega arith),
  At-byte 1 (byte_of v 1) a refl (omega arith),
  bit_or_above 8 (byte_of v 0) (byte_of v 1) (omega arith),
)

pub get_u32-At :
    {m : List ℕ} {o : ℕ} {xs : List ℕ} (v : ℕ)
    → At m o (le32 v ++ xs)
    → v < 2 ^ 32
    → get_u32 m o ≡ got (v, o + 4)
unfolding get_u32
get_u32-At {m} {o} {xs} v a h = ground (
  arith,
  room (le32 v) xs a,
  a.vector,
  word4_low v,
  get_bytes_4 (byte_of v 0) (byte_of v 1) (byte_of v 2) (byte_of v 3) a (omega arith) (omega arith)
      (omega arith) (omega arith),
)

pub get_u64-At :
    {m : List ℕ} {o : ℕ} {xs : List ℕ} (v : ℕ)
    → At m o (le64 v ++ xs)
    → v < 2 ^ 64
    → get_u64 m o ≡ got (v, o + 8)
unfolding get_u64
get_u64-At {m} {o} {xs} v a h = ground (
  arith,
  room (le64 v) xs a,
  a.vector,
  word4_low v,
  word4_high v,
  get_bytes_8 (byte_of v 0) (byte_of v 1) (byte_of v 2) (byte_of v 3) (byte_of v 4) (byte_of v 5)
      (byte_of v 6) (byte_of v 7) a (omega arith) (omega arith) (omega arith) (omega arith)
      (omega arith) (omega arith) (omega arith) (omega arith) (omega arith),
)

pub bytes_at-At :
    {m : List ℕ} {o : ℕ} (ys xs : List ℕ) → At m o (ys ++ xs) → bytes_at m o (length ys) ≡ got ys
bytes_at-At {m} {o} ys xs a =
    ground (arith, room ys xs a, ap (take (length ys)) a.rest ∙ take_append ys xs)

-- The axes of `put_axes`, all on their own.
abbrev pub le_axes : List ℕ → List ℕ
le_axes [] = []
le_axes (v ∷ vs) = le16 v ++ le_axes vs

pub put_axes-le : (b vs : List ℕ) → put_axes b vs ≡ b ++ le_axes vs
unfolding put_axes
put_axes-le b [] = sym (append-nil b)
put_axes-le b (v ∷ vs) =
    put_axes-le (put_u16 b v) vs
    ∙ ap (λ l. l ++ le_axes vs) (put_u16-le b v)
    ∙ append_assoc b (le16 v) (le_axes vs)

pub length-le_axes : (vs : List ℕ) → length (le_axes vs) ≡ 2 * length vs
length-le_axes [] = refl
length-le_axes (v ∷ vs) = omega (arith, length-le_axes vs)

pub get_axes-At :
    {m : List ℕ} (vs : List ℕ) (o : ℕ) (xs : List ℕ)
    → At m o (le_axes vs ++ xs)
    → All IsU16 vs
    → get_axes (length vs) m o ≡ got (vs, o + 2 * length vs)
unfolding get_axes
get_axes-At [] o xs a h = ground arith
get_axes-At (v ∷ vs) o xs a h = ground (
  arith,
  get_u16-At v a h.0,
  get_axes-At vs (o + 2) xs (At-append (le16 v) (le_axes vs ++ xs) a) h.1,
)
