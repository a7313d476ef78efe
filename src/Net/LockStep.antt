-- ===== src/Net/LockStep.antt =====
-- src/net/NetSession.h and NetSession.cpp: one side of a lockstep session, which plays a frame only when
-- the input of the other side for it is in. What the transport answers during a call is an argument;
-- what is sent is appended to `sent`. `present` is `rp_runtime_present` without a readback; that of a
-- runtime is `Runtime.Unpaused.show`.
pub mod Follow
pub mod Frame
pub mod Play
pub mod Agreement
use retro_park.Base.{
  ℕ, ◌+◌, ◌-◌, ◌*◌, ◌%◌, ◌^◌, ◌≡◌, refl, Bool, true, false, not, ◌&&◌, ◌||◌, Option, none, some,
  List, [], ◌∷◌, ◌++◌, length, ltb, leb, ◌==◌, if◌then◌else◌,
}
use retro_park.Base.Bytes.{bytes_eq}
use retro_park.Base.Map.{Map, entries, find, find_or, insert, prune_below}
use retro_park.Abi.{abi_version, RpResult, is_ok, InputState, neutral}
use retro_park.Net.Protocol
use retro_park.Net.Protocol.{
  Hello, Read, got, encode_hello, decode_hello, encode_state_sync, decode_state_sync,
}
use retro_park.Net.Protocol.MsgType
use retro_park.Net.Crc32.{crc32}
use retro_park.Net.Machine.{Machine}
use retro_park.Net.Rollback.{add_u64, checksum_every}
use retro_park.Net.Rollback.Start.{Line, my_hello}

pub data NetStatus : Type 0 where
  ok waiting desync disconnected : NetStatus

pub record NetSession (S : Type 0) : Type 0 where
  pub machine : S
  pub sent : List (List ℕ)
  pub local_port : ℕ
  pub remote_port : ℕ
  pub delay : ℕ
  pub frame : ℕ
  pub status : NetStatus
  pub local_pending : Map InputState
  pub remote_pending : Map InputState
  pub own_crc : Map ℕ
  pub peer_crc : Map ℕ

-- A statement of `tick_recv_and_advance` goes on, or returns from it.
pub data Flow (S : Type 0) : Type 0 where
  next returns : NetSession S → Flow S

infixl 5 ◌>>=◌
abbrev pub ◌>>=◌ : {S : Type 0} → Flow S → (NetSession S → Flow S) → Flow S
next s >>= f = f s
returns s >>= f = returns s

abbrev pub finish : {S : Type 0} → Flow S → NetSession S
finish (next s) = s
finish (returns s) = s

abbrev pub is_disconnected : NetStatus → Bool
is_disconnected NetStatus.disconnected = true
is_disconnected _ = false

module _ {S : Type 0} where
  -- The guards on the hello that came in
  agree : Bool → Hello → Read Hello → NetSession S → RpResult × NetSession S
  agree is_host mine (got peer) s =
      if not (peer.abi_version == abi_version)
      then (RpResult.abi_mismatch, s)
      else if not (peer.content_hash == mine.content_hash)
          || not (bytes_eq peer.core_id mine.core_id)
      then (RpResult.bad_arg, s)
      else (
        RpResult.ok,
        record s { delay = if is_host then mine.input_delay else peer.input_delay },
      )
  agree is_host mine _ s = (RpResult.internal, s)

  pub handshake : Bool → ℕ → ℕ → Option (List ℕ) → Line → NetSession S → RpResult × NetSession S
  unfolding agree
  handshake is_host input_delay content_hash core_id l s =
      let mine = my_hello input_delay content_hash core_id in
      let s' = record s { sent = s.sent ++ encode_hello mine ∷ [] } in
      if not (is_ok l.hello_sent)
      then (RpResult.device, s)
      else if not (is_ok l.hello.0)
      then (RpResult.device, s')
      else agree is_host mine (decode_hello l.hello.1) s'

  -- The first line of `start_host` and of `start_join`
  begin : ℕ → ℕ → NetSession S → NetSession S
  begin local_port remote_port s = record s {
    local_port = local_port;
    remote_port = remote_port;
    frame = 0;
    status = NetStatus.ok;
  }

  pub tick_send : InputState → RpResult → NetSession S → NetSession S
  tick_send local_now sends s =
      let apply = add_u64 s.frame s.delay in
      let message =
        Protocol.encode_input
          (record { frame = apply; port = s.local_port % 2 ^ 8; state = local_now }) in
      let s' = record s { local_pending = insert apply local_now s.local_pending } in
      if is_disconnected s.status
      then s
      else if is_ok sends
      then record s' { sent = s.sent ++ message ∷ [] }
      else record s' { status = NetStatus.disconnected }

  take_input : Read Protocol.Input → NetSession S → NetSession S
  take_input (got i) s = record s { remote_pending = insert i.frame i.state s.remote_pending }
  take_input _ s = s

  take_checksum : Read Protocol.Checksum → NetSession S → NetSession S
  take_checksum (got c) s = record s { peer_crc = insert c.frame c.crc s.peer_crc }
  take_checksum _ s = s

  -- The body of the loop, once a message is in
  pub receive : List ℕ → NetSession S → NetSession S
  unfolding take_input take_checksum
  receive bytes s = elim (Protocol.peek_type bytes) [
    | none ↦ s
    | some t ↦
        if t == MsgType.input
        then take_input (Protocol.decode_input bytes) s
        else if t == MsgType.checksum
        then take_checksum (Protocol.decode_checksum bytes) s
        else s
  ]

  -- What a `recv` that did not time out or fail goes on with
  abbrev pub received : RpResult → Flow S → NetSession S → Flow S
  received RpResult.ok rest s = rest
  received RpResult.timeout rest s = returns (record s { status = NetStatus.waiting })
  received _ rest s = returns (record s { status = NetStatus.disconnected })

  -- `while (remote_pending_.find(frame_) == remote_pending_.end())`: after the last answer that is listed,
  -- `recv` times out.
  pub await : List (RpResult × List ℕ) → NetSession S → Flow S
  unfolding receive
  await [] s = elim (find s.frame s.remote_pending) [
    | none ↦ returns (record s { status = NetStatus.waiting })
    | some _ ↦ next s
  ]
  await ((r, bytes) ∷ polls) s =
      let rest = await polls (receive bytes s) in
      elim (find s.frame s.remote_pending) [ none ↦ received r rest s | some _ ↦ next s ]

  compare_crcs : List (ℕ × ℕ) → NetSession S → Flow S
  compare_crcs [] s = next s
  compare_crcs ((f, crc) ∷ own) s =
      let rest = compare_crcs own s in
      elim (find f s.peer_crc) [
        | none ↦ rest
        | some peer ↦ if peer == crc then rest else returns (record s { status = NetStatus.desync })
      ]

  pub prune : NetSession S → NetSession S
  prune s =
      let lo = if leb 3 s.frame then s.frame - 3 else 0 in
      let clo = if leb (2 * checksum_every) s.frame then s.frame - 2 * checksum_every else 0 in
      record s {
        remote_pending = prune_below lo s.remote_pending;
        local_pending = prune_below lo s.local_pending;
        own_crc = prune_below clo s.own_crc;
        peer_crc = prune_below clo s.peer_crc;
      }

module _ {S : Type 0} (rt : Machine S) (present : S → S) where
  pub start_host : ℕ → ℕ → Option (List ℕ) → Line → NetSession S → RpResult × NetSession S
  unfolding handshake begin
  start_host input_delay content_hash core_id l s =
      let (r, s') = handshake true input_delay content_hash core_id l (begin 0 1 s) in
      let size = rt.serialize_size s'.machine in
      let (saves, blob) = rt.save_state s'.machine size in
      let state = if size == 0 then [] else blob in
      let message = encode_state_sync (record { frame = 0; blob = state }) in
      if not (is_ok r)
      then (r, s')
      else if not (size == 0) && not (is_ok saves)
      then (RpResult.internal, s')
      else if not (is_ok l.state_sent)
      then (RpResult.device, s')
      else (RpResult.ok, record s' { sent = s'.sent ++ message ∷ [] })

  load_first : Read Protocol.StateSync → NetSession S → RpResult × NetSession S
  load_first (got m) s =
      let (r, machine) = rt.load_state s.machine m.blob in
      if length m.blob == 0
      then (RpResult.ok, s)
      else (if is_ok r then RpResult.ok else RpResult.unsupported, record s { machine = machine })
  load_first _ s = (RpResult.internal, s)

  pub start_join : ℕ → Option (List ℕ) → Line → NetSession S → RpResult × NetSession S
  unfolding handshake begin load_first
  start_join content_hash core_id l s =
      let (r, s') = handshake false 0 content_hash core_id l (begin 1 0 s) in
      if not (is_ok r)
      then (r, s')
      else if not (is_ok l.state.0)
      then (RpResult.device, s')
      else load_first (decode_state_sync l.state.1) s'

  -- The pair of inputs for the frame, and `rp_runtime_present`
  pub play : NetSession S → NetSession S
  play s =
      let lin = find_or s.frame neutral s.local_pending in
      let rin = find_or s.frame neutral s.remote_pending in
      record s {
        machine =
            present (rt.set_input (rt.set_input s.machine s.local_port lin) s.remote_port rin);
      }

  -- `sends` is what the transport answers to the checksum.
  pub check_frame : RpResult → NetSession S → Flow S
  check_frame sends s =
      let size = rt.serialize_size s.machine in
      let (saves, bytes) = rt.save_state s.machine size in
      let crc = crc32 (if size == 0 then [] else bytes) in
      let message = Protocol.encode_checksum (record { frame = s.frame; crc = crc }) in
      let s' = record s { own_crc = insert s.frame crc s.own_crc } in
      if not (s.frame % checksum_every == 0)
      then next s
      else if not (size == 0) && not (is_ok saves)
      then next s
      else if is_ok sends
      then next (record s' { sent = s.sent ++ message ∷ [] })
      else returns (record s' { status = NetStatus.disconnected })

  -- From the input pair on
  pub advance_frame : RpResult → NetSession S → Flow S
  unfolding play check_frame compare_crcs prune
  advance_frame sends s =
      check_frame sends (play s) >>= (λ s1. compare_crcs (entries s1.own_crc) s1) >>= λ s2.
      next (record (prune s2) { frame = add_u64 s2.frame 1; status = NetStatus.ok })

  pub tick_recv_and_advance : List (RpResult × List ℕ) → RpResult → NetSession S → NetSession S
  unfolding await advance_frame
  tick_recv_and_advance polls sends s =
      if is_disconnected s.status
      then s
      else finish
          ((if leb s.delay s.frame then await polls s else next s) >>= λ s'. advance_frame sends s')
