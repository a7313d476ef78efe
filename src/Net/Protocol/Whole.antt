-- ===== src/Net/Protocol/Whole.antt =====
-- Messages of src/net/NetProtocol.cpp that come alone, as a transport delivers them.
use retro_park.Base.{
  some, ◌+◌, ◌^◌, ◌<◌, ◌≡◌, refl, length-append, [], ◌++◌, append-nil, arith, length, set,
}
use retro_park.Net.Protocol.MsgType
use retro_park.Net.Protocol.{
  Hello, StateSync, Input, got, peek_type, encode_hello, encode_state_sync, encode_input,
  decode_hello, decode_state_sync, decode_input,
}
use retro_park.Net.Protocol.Cursor.{le16, le32, le64, le_axes, length-le_axes}
use retro_park.Net.Protocol.RoundTrip.{
  IsHello, IsInputMessage, encode_input-le, encode_hello-le, encode_state_sync-le,
  decode_hello-encode_hello, decode_state_sync-encode_state_sync, decode_input-encode_input,
}

pub length-encode_input : (i : Input) → IsInputMessage i → length (encode_input i) ≡ 284
length-encode_input i h = rw (encode_input-le i) (
    omega (
      arith,
      length-append i.state.keys (le_axes i.state.pad_axes ++ le16 i.state.pad_buttons),
      length-append (le_axes i.state.pad_axes) (le16 i.state.pad_buttons),
      length-le_axes i.state.pad_axes,
      h.input.keys_len,
      h.input.axes_len,
    ))

pub decode_input_lem : (i : Input) → IsInputMessage i → decode_input (encode_input i) ≡ got i
decode_input_lem i h =
    rw append-nil at
      (decode_input-encode_input i [] h (rw append-nil (omega (arith, length-encode_input i h))))

pub peek_type-encode_input : (i : Input) → peek_type (encode_input i) ≡ some MsgType.input
unfolding peek_type
peek_type-encode_input i = rw (encode_input-le i) refl

length-encode_hello : (h : Hello) → IsHello h → length (encode_hello h) ≡ 89
length-encode_hello h w = rw (encode_hello-le h) (
    omega (
      arith,
      length-append h.core_id (le64 h.content_hash),
      length-append (h.core_id ++ le64 h.content_hash) (le32 h.input_delay),
      length-append (h.core_id ++ le64 h.content_hash ++ le32 h.input_delay) (le64 h.start_frame),
      w.id_len,
    ))

pub decode_hello_lem :
    (h : Hello)
    → IsHello h
    → decode_hello (encode_hello h) ≡ got (record h { core_id = set h.core_id 63 0 })
decode_hello_lem h w =
    rw append-nil at
      (decode_hello-encode_hello h [] w (rw append-nil (omega (arith, length-encode_hello h w))))

length-encode_state_sync : (s : StateSync) → length (encode_state_sync s) ≡ 13 + length s.blob
length-encode_state_sync s = rw (encode_state_sync-le s) (omega arith)

pub decode_state_sync_lem :
    (s : StateSync)
    → s.frame < 2 ^ 64
    → length s.blob < 2 ^ 32
    → decode_state_sync (encode_state_sync s) ≡ got s
decode_state_sync_lem s hf hb = rw append-nil at (
    decode_state_sync-encode_state_sync s [] hf hb
      (rw append-nil (omega (arith, length-encode_state_sync s, hb))))
