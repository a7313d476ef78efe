-- ===== src/Net/Protocol.antt =====
-- src/net/NetProtocol.h and NetProtocol.cpp: the four messages, encoded in little-endian order.
-- An encoder that appends to the vector `b` returns it. A decoder that moves the offset `o` returns
-- its value and the new offset, and tells a message that it refuses from a read out of bounds.
pub mod MsgType
pub mod Cursor
pub mod RoundTrip
pub mod Bounds
pub mod Whole
mod Tests
use Prim.Native.Nat.{bit_or}
use retro_park.Base.{
  ℕ, zero, suc, ◌+◌, ◌*◌, ◌/◌, ◌%◌, ◌^◌, ◌≡◌, Bool, true, false, Option, none, some, List, [], ◌∷◌,
  ◌++◌, length, get_elem?, set, take, drop, ltb, ◌==◌, if◌then◌else◌,
}
use retro_park.Abi.{InputState}

-- The C types bound the numbers: 2 ^ 32 for `uint32_t`, 2 ^ 64 for `uint64_t`.
pub record Hello : Type 0 where
  pub abi_version : ℕ
  pub core_id : List ℕ
  pub content_hash : ℕ
  pub input_delay : ℕ
  pub start_frame : ℕ

pub record StateSync : Type 0 where
  pub frame : ℕ
  pub blob : List ℕ

pub record Input : Type 0 where
  pub frame : ℕ
  pub port : ℕ
  pub state : InputState

pub record Checksum : Type 0 where
  pub frame : ℕ
  pub crc : ℕ

-- `uint8_t(v >> (8 * i))`
abbrev pub byte_of : ℕ → ℕ → ℕ
byte_of v i = v / 2 ^ (8 * i) % 256

-- `for (int i = 0; i < n; ++i) b.push_back(uint8_t(v >> (8 * i)));`, with the rounds left first
pub put_bytes : ℕ → ℕ → List ℕ → ℕ → List ℕ
put_bytes zero i b v = b
put_bytes (suc n) i b v = put_bytes n (i + 1) (b ++ byte_of v i ∷ []) v

pub put_u16 : List ℕ → ℕ → List ℕ
put_u16 b v = (b ++ byte_of v 0 ∷ []) ++ byte_of v 1 ∷ []

pub put_u32 : List ℕ → ℕ → List ℕ
unfolding put_bytes
put_u32 b v = put_bytes 4 0 b v

pub put_u64 : List ℕ → ℕ → List ℕ
unfolding put_bytes
put_u64 b v = put_bytes 8 0 b v

pub put_axes : List ℕ → List ℕ → List ℕ
put_axes b [] = b
put_axes b (a ∷ axes) = put_axes (put_u16 b a) axes

pub put_input : List ℕ → InputState → List ℕ
put_input b s = put_u16 (put_axes (b ++ s.keys) s.pad_axes) s.pad_buttons

pub encode_hello : Hello → List ℕ
encode_hello h =
    let b = put_u32 (MsgType.hello ∷ []) h.abi_version in
    let b' = put_u64 (b ++ h.core_id) h.content_hash in
    put_u64 (put_u32 b' h.input_delay) h.start_frame

-- The length goes out as `uint32_t`.
pub encode_state_sync : StateSync → List ℕ
encode_state_sync s =
    put_u32 (put_u64 (MsgType.state_sync ∷ []) s.frame) (length s.blob % 2 ^ 32) ++ s.blob

pub encode_input : Input → List ℕ
encode_input m = put_input (put_u64 (MsgType.input ∷ []) m.frame ++ m.port ∷ []) m.state

pub encode_checksum : Checksum → List ℕ
encode_checksum c = put_u32 (put_u64 (MsgType.checksum ∷ []) c.frame) c.crc

-- What a decoder does: it returns, returns false, or reads past the end of the message.
pub data Read (A : Type 0) : Type 0 where
  got : A → Read A
  refused : Read A
  out_of_bounds : Read A

infixl 5 ◌>>=◌
abbrev pub ◌>>=◌ : {A B : Type 0} → Read A → (A → Read B) → Read B
got a >>= f = f a
refused >>= f = refused
out_of_bounds >>= f = out_of_bounds

-- `size_t` addition
abbrev pub add_size : ℕ → ℕ → ℕ
add_size a b = (a + b) % 2 ^ 64

-- `p[i]`
abbrev pub byte_at : List ℕ → ℕ → Read ℕ
byte_at m i = elim (get_elem? m i) [ none ↦ out_of_bounds | some b ↦ got b ]

-- `memcpy(dst, p + o, n)` and `assign(p + o, p + o + n)`
abbrev pub bytes_at : List ℕ → ℕ → ℕ → Read (List ℕ)
bytes_at m o n = if ltb (length m) (o + n) then out_of_bounds else got (take n (drop o m))

-- `for (int i = 0; i < n; ++i) v |= uint32_t(p[o + i]) << (8 * i);`, with the rounds left first
pub get_bytes : ℕ → ℕ → List ℕ → ℕ → ℕ → Read ℕ
get_bytes zero i m o v = got v
get_bytes (suc n) i m o v =
    byte_at m (add_size o i) >>= λ b. get_bytes n (i + 1) m o (bit_or v (b * 2 ^ (8 * i)))

pub get_u16 : List ℕ → ℕ → Read (ℕ × ℕ)
get_u16 m o =
    if ltb (length m) (add_size o 2)
    then refused
    else do a ← byte_at m o; b ← byte_at m (add_size o 1); got (bit_or a (b * 2 ^ 8), add_size o 2)

pub get_u32 : List ℕ → ℕ → Read (ℕ × ℕ)
get_u32 m o =
    if ltb (length m) (add_size o 4)
    then refused
    else do v ← get_bytes 4 0 m o 0; got (v, add_size o 4)

pub get_u64 : List ℕ → ℕ → Read (ℕ × ℕ)
get_u64 m o =
    if ltb (length m) (add_size o 8)
    then refused
    else do v ← get_bytes 8 0 m o 0; got (v, add_size o 8)

-- `for (int i = 0; i < n; ++i)` over `get_u16`, with the rounds left
pub get_axes : ℕ → List ℕ → ℕ → Read (List ℕ × ℕ)
get_axes zero m o = got ([], o)
get_axes (suc n) m o = do (a, o') ← get_u16 m o; (axes, o'') ← get_axes n m o'; got (a ∷ axes, o'')

pub get_input : List ℕ → ℕ → Read (InputState × ℕ)
get_input m o = if ltb (length m) (add_size o 256) then refused else do
  keys ← bytes_at m o 256
  (axes, o') ← get_axes 8 m (add_size o 256)
  (buttons, o'') ← get_u16 m o'
  got (record { keys = keys; pad_axes = axes; pad_buttons = buttons }, o'')

-- The guard `m.empty() || m[0] != uint8_t(type)` of the decoders
abbrev has_type : ℕ → List ℕ → Bool
has_type t [] = false
has_type t (b ∷ m) = b == t

pub peek_type : List ℕ → Option ℕ
peek_type [] = none
peek_type (b ∷ m) = some b

pub decode_hello : List ℕ → Read Hello
decode_hello m =
    if has_type MsgType.hello m
    then (do
      (version, o) ← get_u32 m 1
      (core_id, o) ←
          if ltb (length m) (add_size o 64)
          then refused
          else bytes_at m o 64 >>= λ id. got (set id 63 0, add_size o 64)
      (hash, o) ← get_u64 m o
      (delay, o) ← get_u32 m o
      (start, o) ← get_u64 m o
      got (record {
        abi_version = version;
        core_id = core_id;
        content_hash = hash;
        input_delay = delay;
        start_frame = start;
      }))
    else refused

pub decode_state_sync : List ℕ → Read StateSync
decode_state_sync m =
    if has_type MsgType.state_sync m
    then (do
      (frame, o) ← get_u64 m 1
      (len, o) ← get_u32 m o
      if ltb (length m) (add_size o len)
          then refused
          else bytes_at m o len >>= λ blob. got (record { frame = frame; blob = blob }))
    else refused

pub decode_input : List ℕ → Read Input
decode_input m =
    if has_type MsgType.input m
    then (do
      (frame, o) ← get_u64 m 1
      port ← if ltb (length m) (add_size o 1) then refused else byte_at m o
      (state, o) ← get_input m (add_size o 1)
      got (record { frame = frame; port = port; state = state }))
    else refused

pub decode_checksum : List ℕ → Read Checksum
decode_checksum m =
    if has_type MsgType.checksum m
    then (do
      (frame, o) ← get_u64 m 1
      (crc, o) ← get_u32 m o
      got (record { frame = frame; crc = crc }))
    else refused
