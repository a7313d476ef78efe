-- ===== src/Net/Protocol/RoundTrip.antt =====
-- What src/net/NetProtocol.cpp encodes it decodes, whatever bytes follow the message.
use retro_park.Base.{
  ℕ, ◌+◌, ◌*◌, ◌%◌, ◌^◌, ◌<◌, ◌≡◌, refl, ap, subst, length-append, ltb, le→ltb, false, true, ◌∙◌,
  sym, List, [], ◌∷◌, ◌++◌, append_assoc, arith, length, set,
}
use retro_park.Abi.{InputState, IsInput}
use retro_park.Net.Protocol.{
  Hello, StateSync, Input, Checksum, got, put_input, get_input, get_axes, get_u16, get_u32, get_u64,
  has_type, bytes_at, add_size, encode_hello, encode_state_sync, encode_input, encode_checksum,
  decode_hello, decode_state_sync, decode_input, decode_checksum,
}
use retro_park.Net.Protocol.Cursor.{
  IsVector, At, At-byte, At-append, At-length, le16, le32, le64, le_axes, put_u16-le, put_u32-le,
  put_u64-le, put_axes-le, length-le_axes, get_u16-At, get_u32-At, get_u64-At, get_axes-At,
  bytes_at-At,
}

-- The C types of the fields.
pub record IsHello (h : Hello) : Type 0 where
  pub version : h.abi_version < 2 ^ 32
  pub id_len : length h.core_id ≡ 64
  pub hash : h.content_hash < 2 ^ 64
  pub delay : h.input_delay < 2 ^ 32
  pub start : h.start_frame < 2 ^ 64

pub record IsInputMessage (m : Input) : Type 0 where
  pub frame_u64 : m.frame < 2 ^ 64
  pub port_u8 : m.port < 256
  pub input : IsInput m.state

-- The rest of a message behind its type stands at offset 1.
At-tail : (t : ℕ) (xs : List ℕ) → IsVector (t ∷ xs) → At (t ∷ xs) 1 xs
At-tail t xs v = record { rest = refl; within = omega arith; vector = v }

encode_checksum-le : (c : Checksum) → encode_checksum c ≡ 4 ∷ le64 c.frame ++ le32 c.crc
unfolding encode_checksum
encode_checksum-le c = rw (put_u64-le, put_u32-le)

-- A checksum message is read back, whatever follows it.
pub decode_checksum-encode_checksum :
    (c : Checksum) (rest : List ℕ)
    → c.frame < 2 ^ 64
    → c.crc < 2 ^ 32
    → IsVector (encode_checksum c ++ rest)
    → decode_checksum (encode_checksum c ++ rest) ≡ got c
unfolding decode_checksum
decode_checksum-encode_checksum c rest hf hc v = rw (encode_checksum-le c) (
    ground (
      arith,
      get_u64-At c.frame here hf,
      get_u32-At c.crc (At-append (le64 c.frame) (le32 c.crc ++ rest) here) hc,
    ))
  where
    here : At (4 ∷ (le64 c.frame ++ (le32 c.crc ++ rest))) 1 (le64 c.frame ++ (le32 c.crc ++ rest))
    here = At-tail 4 (le64 c.frame ++ (le32 c.crc ++ rest)) (rw (encode_checksum-le c) at v)

pub encode_state_sync-le :
    (s : StateSync)
    → encode_state_sync s ≡ 2 ∷ le64 s.frame ++ le32 (length s.blob % 2 ^ 32) ++ s.blob
unfolding encode_state_sync
encode_state_sync-le s = rw (put_u64-le, put_u32-le)

-- A state message is read back if its state is shorter than 2 ^ 32 bytes, whatever follows it.
pub decode_state_sync-encode_state_sync :
    (s : StateSync) (rest : List ℕ)
    → s.frame < 2 ^ 64
    → length s.blob < 2 ^ 32
    → IsVector (encode_state_sync s ++ rest)
    → decode_state_sync (encode_state_sync s ++ rest) ≡ got s
unfolding decode_state_sync
decode_state_sync-encode_state_sync s rest hf hb v = rw (encode_state_sync-le s) (
    ground (
      arith,
      get_u64-At s.frame here hf,
      get_u32-At len sized (omega arith),
      bytes_at-At s.blob rest blob,
      At-length blob,
      length-append s.blob rest,
      v',
    ))
  where
    len : ℕ
    len = length s.blob % 2 ^ 32

    v' : IsVector (2 ∷ (le64 s.frame ++ (le32 len ++ (s.blob ++ rest))))
    v' = rw (encode_state_sync-le s) at v

    here :
        At
          (2 ∷ (le64 s.frame ++ (le32 len ++ (s.blob ++ rest))))
          1
          (le64 s.frame ++ (le32 len ++ (s.blob ++ rest)))
    here = At-tail 2 (le64 s.frame ++ (le32 len ++ (s.blob ++ rest))) v'

    sized :
        At (2 ∷ (le64 s.frame ++ (le32 len ++ (s.blob ++ rest)))) 9 (le32 len ++ (s.blob ++ rest))
    sized = At-append (le64 s.frame) (le32 len ++ (s.blob ++ rest)) here

    blob : At (2 ∷ (le64 s.frame ++ (le32 len ++ (s.blob ++ rest)))) 13 (s.blob ++ rest)
    blob = At-append (le32 len) (s.blob ++ rest) sized

-- The bytes of `put_input`
abbrev le_input : InputState → List ℕ
le_input s = s.keys ++ (le_axes s.pad_axes ++ le16 s.pad_buttons)

put_input-le : (b : List ℕ) (s : InputState) → put_input b s ≡ b ++ le_input s
unfolding put_input
put_input-le b s =
    put_u16-le _ s.pad_buttons
    ∙ ap (λ l. l ++ le16 s.pad_buttons) (put_axes-le _ s.pad_axes)
    ∙ simp append_assoc

get_input_steps :
    (m : List ℕ) (o o' o'' e : ℕ) (s : InputState)
    → ltb (length m) o' ≡ false
    → add_size o 256 ≡ o'
    → bytes_at m o 256 ≡ got s.keys
    → get_axes 8 m o' ≡ got (s.pad_axes, o'')
    → get_u16 m o'' ≡ got (s.pad_buttons, e)
    → get_input m o ≡ got (s, e)
unfolding get_input
get_input_steps m o o' o'' e s fits moved keys axes buttons = ground arith

get_input-At :
    {m : List ℕ} (o : ℕ) (xs : List ℕ) (s : InputState)
    → At m o (s.keys ++ (le_axes s.pad_axes ++ (le16 s.pad_buttons ++ xs)))
    → IsInput s
    → get_input m o ≡ got (s, o + 274)
get_input-At {m} o xs s a h =
    get_input_steps m o (o + 256) (o + 272) (o + 274) s (le→ltb _ _ (omega (arith, At-length axes)))
      (omega (arith, a.vector, At-length axes))
      (ap (bytes_at m o) (sym h.keys_len)
        ∙ bytes_at-At s.keys (le_axes s.pad_axes ++ (le16 s.pad_buttons ++ xs)) a)
      (ap (λ n. get_axes n m (o + 256)) (sym h.axes_len)
        ∙ get_axes-At s.pad_axes (o + 256) (le16 s.pad_buttons ++ xs) axes h.axes_u16
        ∙ ap (λ k. got (s.pad_axes, k)) axes_end')
      (get_u16-At s.pad_buttons buttons h.buttons_u16
        ∙ ap (λ k. got (s.pad_buttons, k)) (omega arith))
  where
    axes : At m (o + 256) (le_axes s.pad_axes ++ (le16 s.pad_buttons ++ xs))
    axes =
        subst (λ k. At m (o + k) (le_axes s.pad_axes ++ (le16 s.pad_buttons ++ xs))) h.keys_len
          (At-append s.keys (le_axes s.pad_axes ++ (le16 s.pad_buttons ++ xs)) a)

    axes_end' : o + 256 + 2 * length s.pad_axes ≡ o + 272
    axes_end' = omega (arith, h.axes_len)

    axes_end : o + 256 + length (le_axes s.pad_axes) ≡ o + 272
    axes_end = omega (arith, length-le_axes s.pad_axes, h.axes_len)

    buttons : At m (o + 272) (le16 s.pad_buttons ++ xs)
    buttons =
        subst (λ k. At m k (le16 s.pad_buttons ++ xs)) axes_end
          (At-append (le_axes s.pad_axes) (le16 s.pad_buttons ++ xs) axes)

pub encode_input-le : (m : Input) → encode_input m ≡ 3 ∷ le64 m.frame ++ m.port ∷ le_input m.state
unfolding encode_input
encode_input-le m = rw (put_u64-le, put_input-le) (simp append_assoc)

-- An input message is read back, the pad and the keys included, whatever follows it.
pub decode_input-encode_input :
    (i : Input) (rest : List ℕ)
    → IsInputMessage i
    → IsVector (encode_input i ++ rest)
    → decode_input (encode_input i ++ rest) ≡ got i
unfolding decode_input
decode_input-encode_input i rest h v = rw split (
    ground (
      arith,
      get_u64-At i.frame here h.frame_u64,
      At-length port,
      At-byte 0 i.port port refl (omega arith),
      get_input-At 10 rest i.state state h.input,
      v',
    ))
  where
    state_bytes : List ℕ
    state_bytes = i.state.keys ++ (le_axes i.state.pad_axes ++ (le16 i.state.pad_buttons ++ rest))

    split : encode_input i ++ rest ≡ 3 ∷ (le64 i.frame ++ i.port ∷ state_bytes)
    split = rw (encode_input-le i) (simp append_assoc)

    v' : IsVector (3 ∷ (le64 i.frame ++ i.port ∷ state_bytes))
    v' = subst IsVector split v

    here : At (3 ∷ (le64 i.frame ++ i.port ∷ state_bytes)) 1 (le64 i.frame ++ i.port ∷ state_bytes)
    here = At-tail 3 (le64 i.frame ++ i.port ∷ state_bytes) v'

    port : At (3 ∷ (le64 i.frame ++ i.port ∷ state_bytes)) 9 (i.port ∷ state_bytes)
    port = At-append (le64 i.frame) (i.port ∷ state_bytes) here

    state : At (3 ∷ (le64 i.frame ++ i.port ∷ state_bytes)) 10 state_bytes
    state = At-append (i.port ∷ []) state_bytes port

pub encode_hello-le :
    (h : Hello)
    → encode_hello h
      ≡ 1 ∷ le32 h.abi_version
        ++ h.core_id
        ++ le64 h.content_hash
        ++ le32 h.input_delay
        ++ le64 h.start_frame
unfolding encode_hello
encode_hello-le h = simp (put_u64-le, put_u32-le, append_assoc)

decode_hello_steps :
    (m id : List ℕ) (h : Hello)
    → has_type 1 m ≡ true
    → get_u32 m 1 ≡ got (h.abi_version, 5)
    → ltb (length m) 69 ≡ false
    → bytes_at m 5 64 ≡ got id
    → get_u64 m 69 ≡ got (h.content_hash, 77)
    → get_u32 m 77 ≡ got (h.input_delay, 81)
    → get_u64 m 81 ≡ got (h.start_frame, 89)
    → decode_hello m ≡ got (record h { core_id = set id 63 0 })
unfolding decode_hello
decode_hello_steps m id h type version fits core_id hash delay start = ground arith

-- A hello is read back with the last byte of its core id cleared, whatever follows it.
pub decode_hello-encode_hello :
    (h : Hello) (rest : List ℕ)
    → IsHello h
    → IsVector (encode_hello h ++ rest)
    → decode_hello (encode_hello h ++ rest) ≡ got (record h { core_id = set h.core_id 63 0 })
decode_hello-encode_hello h rest w v = rw split (
    decode_hello_steps _ h.core_id h refl (get_u32-At h.abi_version here w.version)
      (le→ltb _ _ (omega (arith, At-length hash)))
      (ap (bytes_at (1 ∷ (le32 h.abi_version ++ (h.core_id ++ behind_id))) 5) (sym w.id_len)
        ∙ bytes_at-At h.core_id behind_id id)
      (get_u64-At h.content_hash hash w.hash) (get_u32-At h.input_delay delay w.delay)
      (get_u64-At h.start_frame start w.start))
  where
    behind_id : List ℕ
    behind_id = le64 h.content_hash ++ (le32 h.input_delay ++ (le64 h.start_frame ++ rest))

    split : encode_hello h ++ rest ≡ 1 ∷ (le32 h.abi_version ++ (h.core_id ++ behind_id))
    split = rw (encode_hello-le h) (simp append_assoc)

    here :
        At
          (1 ∷ (le32 h.abi_version ++ (h.core_id ++ behind_id)))
          1
          (le32 h.abi_version ++ (h.core_id ++ behind_id))
    here = At-tail 1 _ (subst IsVector split v)

    id : At (1 ∷ (le32 h.abi_version ++ (h.core_id ++ behind_id))) 5 (h.core_id ++ behind_id)
    id = At-append (le32 h.abi_version) (h.core_id ++ behind_id) here

    hash : At (1 ∷ (le32 h.abi_version ++ (h.core_id ++ behind_id))) 69 behind_id
    hash =
        subst (λ k. At (1 ∷ (le32 h.abi_version ++ (h.core_id ++ behind_id))) (5 + k) behind_id)
          w.id_len (At-append h.core_id behind_id id)

    delay :
        At
          (1 ∷ (le32 h.abi_version ++ (h.core_id ++ behind_id)))
          77
          (le32 h.input_delay ++ (le64 h.start_frame ++ rest))
    delay =
        At-append (le64 h.content_hash) (le32 h.input_delay ++ (le64 h.start_frame ++ rest)) hash

    start :
        At (1 ∷ (le32 h.abi_version ++ (h.core_id ++ behind_id))) 81 (le64 h.start_frame ++ rest)
    start = At-append (le32 h.input_delay) (le64 h.start_frame ++ rest) delay

-- An input message has 284 bytes.
