-- ===== src/Net/Protocol/Tests.antt =====
-- Messages of src/net/NetProtocol.cpp at concrete fields.
use retro_park.Base.{ℕ, ◌≡◌, ◌≢◌, refl, List, [], ◌∷◌, ◌++◌, arith, replicate, set}
use retro_park.Net.Protocol.{
  Hello, StateSync, Input, Checksum, got, out_of_bounds, encode_hello, encode_state_sync,
  encode_input, put_input, put_u16, put_u32, put_u64, put_axes, decode_hello, decode_state_sync,
  decode_input, decode_checksum,
}
use retro_park.Net.Protocol.RoundTrip.{
  IsHello, IsInputMessage, decode_hello-encode_hello, decode_state_sync-encode_state_sync,
  decode_input-encode_input,
}
use retro_park.Net.Protocol.Bounds.{decoders-in_bounds}

abbrev pressed : Input
pressed = record {
  frame = 300;
  port = 1;
  state = record {
    keys = replicate 256 7;
    pad_axes = 1 ∷ 2 ∷ 65535 ∷ 4 ∷ 5 ∷ 6 ∷ 7 ∷ 8 ∷ [];
    pad_buttons = 515;
  };
}

pressed-IsInputMessage : IsInputMessage pressed
pressed-IsInputMessage = record {
  frame_u64 = omega arith;
  port_u8 = omega arith;
  input = record {
    keys_len = refl;
    axes_len = refl;
    axes_u16 = omega arith;
    buttons_u16 = omega arith;
  };
}

abbrev greeting : Hello
greeting = record {
  abi_version = 9;
  core_id = replicate 64 65;
  content_hash = 1000;
  input_delay = 2;
  start_frame = 0;
}

greeting-IsHello : IsHello greeting
greeting-IsHello = record {
  version = omega arith;
  id_len = refl;
  hash = omega arith;
  delay = omega arith;
  start = omega arith;
}

abbrev snapshot : StateSync
snapshot = record { frame = 70; blob = 1 ∷ 2 ∷ 3 ∷ [] }

abbrev agreed : Checksum
agreed = record { frame = 60; crc = 305419896 }

decode_input-encode_input_example : decode_input (encode_input pressed ++ 9 ∷ []) ≡ got pressed
unfolding encode_input put_input put_u16 put_axes put_u64
decode_input-encode_input_example =
    decode_input-encode_input pressed (9 ∷ []) pressed-IsInputMessage (omega arith)

decode_hello-encode_hello_example :
    decode_hello (encode_hello greeting ++ 9 ∷ [])
    ≡ got (record greeting { core_id = set (replicate 64 65) 63 0 })
unfolding encode_hello put_u64 put_u32
decode_hello-encode_hello_example =
    decode_hello-encode_hello greeting (9 ∷ []) greeting-IsHello (omega arith)

decode_state_sync-encode_state_sync_example :
    decode_state_sync (encode_state_sync snapshot ++ 9 ∷ []) ≡ got snapshot
unfolding encode_state_sync put_u32 put_u64
decode_state_sync-encode_state_sync_example =
    decode_state_sync-encode_state_sync snapshot (9 ∷ []) (omega arith) (omega arith) (omega arith)

-- An input message that breaks off
abbrev broken : List ℕ
broken = 3 ∷ 1 ∷ 0 ∷ []

decoders-in_bounds_example :
    (decode_hello broken ≢ out_of_bounds)
    × (decode_state_sync broken ≢ out_of_bounds)
    × (decode_input broken ≢ out_of_bounds)
    × (decode_checksum broken ≢ out_of_bounds)
decoders-in_bounds_example =
    decoders-in_bounds broken (omega arith) (omega arith, (omega arith, (omega arith, tt)))
