-- ===== src/Net/Protocol/Bounds.antt =====
-- The decoders of src/net/NetProtocol.cpp never read past the end of a message.
use Prim.Native.Nat.{bit_or}
use retro_park.Base.{
  ℕ, zero, suc, ◌+◌, ◌*◌, ◌^◌, ◌≤◌, ◌<◌, ◌≡◌, ◌≢◌, refl, some, List, [], ◌∷◌, arith, length,
  get_elem?, get_elem?-of_lt, take, drop, set, subst, All, Option-cases, ltb, true, false,
  if◌then◌else◌, ◌==◌, le→ltb, lt→ltb, Bool-cases, inl, inr,
}
use native.Mathlib.Decide.{dec_le}
use native.Mathlib.Numerals.{towards_suc}
use retro_park.Base.Bits.{bit_or_above}
use retro_park.Abi.{IsByte}
use retro_park.Net.Protocol.{
  StateSync, Read, got, refused, out_of_bounds, ◌>>=◌, byte_at, bytes_at, add_size, get_bytes,
  get_u16, get_u32, get_u64, get_axes, get_input, has_type, peek_type, decode_hello,
  decode_state_sync, decode_input, decode_checksum,
}
use retro_park.Net.Protocol.MsgType
use retro_park.Net.Protocol.Cursor.{IsVector}

-- A reader that returns has moved within the message; it may refuse, and never leaves the message.
abbrev Within : {A : Type 0} → List ℕ → Read (A × ℕ) → Type 0
Within m (got (a, o)) = o ≤ length m
Within m refused = Unit {0}
Within m out_of_bounds = ⊥

module _ (m : List ℕ) (v : IsVector m) where
  byte_at_within : (o i : ℕ) → o + i < length m → (b : ℕ) × (byte_at m (add_size o i) ≡ got b)
  byte_at_within o i h =
      let (b, e) = get_elem?-of_lt m (o + i) h in
      let k : add_size o i ≡ o + i = omega arith in (b, ground (arith, e, k))

  get_bytes_within : (n i o w : ℕ) → o + i + n ≤ length m → (x : ℕ) × (get_bytes n i m o w ≡ got x)
  unfolding get_bytes
  get_bytes_within zero i o w h = (w, refl)
  get_bytes_within (suc n) i o w h =
      let (b, e) = byte_at_within o i (omega arith) in
      let (x, e') = get_bytes_within n (i + 1) o (bit_or w (b * 2 ^ (8 * i))) (omega arith) in
      (x, ground (arith, e, e'))

  get_u16-Within : (o : ℕ) → o ≤ length m → Within m (get_u16 m o)
  unfolding get_u16
  get_u16-Within o h = elim (dec_le (o + 2) (length m)) [
    | yes p ↦
        let (a, ea) = byte_at_within o 0 (omega arith) in
        let (b, eb) = byte_at_within o 1 (omega arith) in ground (arith, ea, eb)
    | no p ↦ ground arith
  ]

  get_u32-Within : (o : ℕ) → o ≤ length m → Within m (get_u32 m o)
  unfolding get_u32
  get_u32-Within o h = elim (dec_le (o + 4) (length m)) [
    | yes p ↦ let (x, e) = get_bytes_within 4 0 o 0 (omega arith) in ground (arith, e)
    | no p ↦ ground arith
  ]

  get_u64-Within : (o : ℕ) → o ≤ length m → Within m (get_u64 m o)
  unfolding get_u64
  get_u64-Within o h = elim (dec_le (o + 8) (length m)) [
    | yes p ↦ let (x, e) = get_bytes_within 8 0 o 0 (omega arith) in ground (arith, e)
    | no p ↦ ground arith
  ]

  -- A reader behind another starts within the message.
  bind-Within :
      {A B : Type 0} (r : Read (A × ℕ)) (k : A × ℕ → Read (B × ℕ))
      → Within m r
      → ((a : A) (o : ℕ) → o ≤ length m → Within m (k (a, o)))
      → Within m (r >>= k)
  bind-Within (got (a, o)) k h f = f a o h
  bind-Within refused k h f = tt
  bind-Within out_of_bounds k h f = h

  get_axes-Within : (n o : ℕ) → o ≤ length m → Within m (get_axes n m o)
  unfolding get_axes
  get_axes-Within zero o h = h
  get_axes-Within (suc n) o h =
      bind-Within (get_u16 m o) _ (get_u16-Within o h)
        λ a o' h'. bind-Within (get_axes n m o') _ (get_axes-Within n o' h') λ axes o'' h''. h''

  get_input-Within : (o : ℕ) → o ≤ length m → Within m (get_input m o)
  unfolding get_input
  get_input-Within o h = elim (dec_le (o + 256) (length m)) [
    | yes p ↦
        let k : add_size o 256 ≡ o + 256 = omega arith in
        rw (k, le→ltb _ _ p)
          (bind-Within (get_axes 8 m (o + 256)) _ (get_axes-Within 8 (o + 256) p) λ axes o' h'.
            bind-Within (get_u16 m o') _ (get_u16-Within o' h') λ buttons o'' h''. h'')
    | no p ↦ ground arith
  ]

  bind_safe :
      {A B : Type 0} (r : Read (A × ℕ)) (k : A × ℕ → Read B)
      → Within m r
      → ((a : A) (o : ℕ) → o ≤ length m → k (a, o) ≢ out_of_bounds)
      → (r >>= k) ≢ out_of_bounds
  bind_safe (got (a, o)) k h f = f a o h
  bind_safe refused k h f = λ e. cc
  bind_safe out_of_bounds k h f = absurd h

  -- A slice behind the guard that it fits.
  slice_safe :
      {B : Type 0} (o n : ℕ) (k : List ℕ → Read B)
      → o ≤ length m
      → n < 2 ^ 63
      → ((x : List ℕ) → o + n ≤ length m → k x ≢ out_of_bounds)
      → (if ltb (length m) (add_size o n) then refused else bytes_at m o n >>= k) ≢ out_of_bounds
  slice_safe o n k h hn f = elim (dec_le (o + n) (length m)) [
    | yes p ↦
        let e : add_size o n ≡ o + n = omega arith in rw (e, le→ltb _ _ p) (f (take n (drop o m)) p)
    | no p ↦
        let e : add_size o n ≡ o + n = omega arith in
        rw (e, lt→ltb (length m) (o + n) (omega arith)) (λ c. cc)
  ]

has_type-length : (t : ℕ) (m : List ℕ) → has_type t m ≡ true → 1 ≤ length m
has_type-length t [] h = cc
has_type-length t (b ∷ m) h = omega arith

-- Bytes of the message bound the words read from it.
get_elem?-IsByte : (m : List ℕ) (i : ℕ) {b : ℕ} → All IsByte m → get_elem? m i ≡ some b → b < 256
get_elem?-IsByte [] i h e = cc
get_elem?-IsByte (x ∷ m) zero h e = ground arith
get_elem?-IsByte (x ∷ m) (suc i) h e = get_elem?-IsByte m i h.1 e

eight_more : (k : ℕ) → 2 ^ (k + 8) ≡ 256 * 2 ^ k
eight_more k = simp towards_suc (omega arith)

byte_step : (i w b : ℕ) → w < 2 ^ (8 * i) → b < 256 → bit_or w (b * 2 ^ (8 * i)) < 2 ^ (8 * (i + 1))
byte_step i w b hw hb =
    let e : 8 * (i + 1) ≡ 8 * i + 8 = omega arith in
    rw (bit_or_above (8 * i) w b hw, e, eight_more (8 * i)) (grind arith)

get_bytes_bound :
    (n i : ℕ) (m : List ℕ) (o w : ℕ) {x : ℕ}
    → All IsByte m
    → w < 2 ^ (8 * i)
    → get_bytes n i m o w ≡ got x
    → x < 2 ^ (8 * (i + n))
unfolding get_bytes
get_bytes_bound zero i m o w h hw e = ground arith
get_bytes_bound (suc n) i m o w {x} h hw e = elim (Option-cases (get_elem? m (add_size o i))) [
  | inl missing ↦ ground arith
  | inr (b, found) ↦
      let k : i + 1 + n ≡ i + suc n = omega arith in
      rw k at (
        get_bytes_bound n (i + 1) m o (bit_or w (b * 2 ^ (8 * i))) {x = x} h
          (byte_step i w b hw (get_elem?-IsByte m (add_size o i) h found)) (ground arith))
]

get_u32_bound :
    (m : List ℕ) (o : ℕ) {v o' : ℕ} → All IsByte m → get_u32 m o ≡ got (v, o') → v < 2 ^ 32
unfolding get_u32
get_u32_bound m o h e = grind (arith, get_bytes_bound 4 0 m o 0 h)

module _ (m : List ℕ) (v : IsVector m) where
  id-Within :
      (o : ℕ)
      → o ≤ length m
      → Within m (
          if ltb (length m) (add_size o 64)
          then refused
          else bytes_at m o 64 >>= λ id. got (set id 63 0, add_size o 64))
  id-Within o h = elim (dec_le (o + 64) (length m)) [
    | yes p ↦ let k : add_size o 64 ≡ o + 64 = omega arith in rw (k, le→ltb _ _ p) p
    | no p ↦
        let k : add_size o 64 ≡ o + 64 = omega arith in
        rw (k, lt→ltb (length m) (o + 64) (omega arith)) tt
  ]

  port_eq :
      (o : ℕ)
      → o + 1 ≤ length m
      → (b : ℕ) × ((if ltb (length m) (add_size o 1) then refused else byte_at m o) ≡ got b)
        × (add_size o 1 ≡ o + 1)
  port_eq o p =
      let (b, e) = get_elem?-of_lt m o (omega arith) in (b, ground (arith, e), omega arith)

  port_refused :
      (o : ℕ)
      → o ≤ length m
      → ¬ (o + 1 ≤ length m)
      → (if ltb (length m) (add_size o 1) then refused else byte_at m o) ≡ refused
  port_refused o h p = ground arith

  checksum_safe : decode_checksum m ≢ out_of_bounds
  unfolding decode_checksum
  checksum_safe = elim (Bool-cases (has_type 4 m)) [
    | inl t ↦ rw t (
        bind_safe m v (get_u64 m 1) _ (get_u64-Within m v 1 (has_type-length 4 m t))
          λ f o h'. bind_safe m v (get_u32 m o) _ (get_u32-Within m v o h') λ c o' h'' e. cc)
    | inr t ↦ rw t (λ e. cc)
  ]

  input_safe : decode_input m ≢ out_of_bounds
  unfolding decode_input
  input_safe = elim (Bool-cases (has_type 3 m)) [
    | inl t ↦ rw t (
        bind_safe m v (get_u64 m 1) _ (get_u64-Within m v 1 (has_type-length 3 m t)) λ f o h'.
          elim (dec_le (o + 1) (length m)) [
            | yes p ↦
                let (b, e, k) = port_eq o p in
                rw (e, k)
                  (bind_safe m v (get_input m (o + 1)) _ (get_input-Within m v (o + 1) p)
                    λ s o' h'' c. cc)
            | no p ↦ rw (port_refused o h' p) (λ c. cc)
          ])
    | inr t ↦ rw t (λ e. cc)
  ]

  abbrev blob_of : ℕ → ℕ × ℕ → Read StateSync
  blob_of f x =
      if ltb (length m) (add_size x.1 x.0)
      then refused
      else bytes_at m x.1 x.0 >>= λ blob. got (record { frame = f; blob = blob })

  blob_safe :
      (f o : ℕ) (r : Read (ℕ × ℕ))
      → ((len o' : ℕ) → r ≡ got (len, o') → (len < 2 ^ 32) × (o' ≤ length m))
      → r ≢ out_of_bounds
      → (r >>= blob_of f) ≢ out_of_bounds
  blob_safe f o (got (len, o')) bound ne =
      let (hl, ho) = bound len o' refl in
      slice_safe m v o' len (λ blob. got (record { frame = f; blob = blob })) ho (omega arith)
        λ x p c. cc
  blob_safe f o refused bound ne = λ c. cc
  blob_safe f o out_of_bounds bound ne = absurd (ne refl)

  Within-got :
      {A : Type 0} (r : Read (A × ℕ)) {a : A} {o : ℕ} → Within m r → r ≡ got (a, o) → o ≤ length m
  Within-got r h e = subst (Within m) e h

  Within-ne : {A : Type 0} (r : Read (A × ℕ)) → Within m r → r ≢ out_of_bounds
  Within-ne (got a) h = λ e. cc
  Within-ne refused h = λ e. cc
  Within-ne out_of_bounds h = absurd h

  state_sync_safe : All IsByte m → decode_state_sync m ≢ out_of_bounds
  unfolding decode_state_sync
  state_sync_safe bytes = elim (Bool-cases (has_type 2 m)) [
    | inl t ↦ rw t (
        bind_safe m v (get_u64 m 1) _ (get_u64-Within m v 1 (has_type-length 2 m t)) λ f o h'.
          blob_safe f o (get_u32 m o)
            (λ len o' e.
              (get_u32_bound m o bytes e, Within-got (get_u32 m o) (get_u32-Within m v o h') e))
            (Within-ne (get_u32 m o) (get_u32-Within m v o h')))
    | inr t ↦ rw t (λ e. cc)
  ]

  hello_safe : decode_hello m ≢ out_of_bounds
  unfolding decode_hello
  hello_safe = elim (Bool-cases (has_type 1 m)) [
    | inl t ↦ rw t (
        bind_safe m v (get_u32 m 1) _ (get_u32-Within m v 1 (has_type-length 1 m t)) λ f o h.
          bind_safe m v _ _ (id-Within o h) λ id o₁ h₁.
            bind_safe m v (get_u64 m o₁) _ (get_u64-Within m v o₁ h₁) λ hash o₂ h₂.
              bind_safe m v (get_u32 m o₂) _ (get_u32-Within m v o₂ h₂) λ d o₃ h₃.
                bind_safe m v (get_u64 m o₃) _ (get_u64-Within m v o₃ h₃) λ s o₄ h₄ e. cc)
    | inr t ↦ rw t (λ e. cc)
  ]

-- No decoder reads past the end of a message of any bytes, malformed and short ones included.
pub decoders-in_bounds :
    (m : List ℕ)
    → IsVector m
    → All IsByte m
    → (decode_hello m ≢ out_of_bounds)
      × (decode_state_sync m ≢ out_of_bounds)
      × (decode_input m ≢ out_of_bounds)
      × (decode_checksum m ≢ out_of_bounds)
decoders-in_bounds m v b =
    (hello_safe m v, state_sync_safe m v b, input_safe m v, checksum_safe m v)

-- A message of another type is not decoded as an input.
pub decode_input-refused :
    (m : List ℕ)
    → ((t : ℕ) → peek_type m ≡ some t → (t == MsgType.input) ≡ false)
    → decode_input m ≡ refused
unfolding decode_input peek_type
decode_input-refused [] h = refl
decode_input-refused (b ∷ m) h = rw (h b refl)
