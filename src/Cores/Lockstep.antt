-- ===== src/Cores/Lockstep.antt =====
-- Two lockstep sessions (src/net/NetSession.cpp) of the reference core cores/refcore_rollback, in their
-- second frame.
use retro_park.Base.{
  zero, suc, ◌≡◌, refl, sym, ℕ, ◌+◌, ◌-◌, ◌≤◌, some, none, [], ◌∷◌, ◌==◌, if◌then◌else◌, arith, set,
  replicate, true,
}
use retro_park.Base.Map.{Map, entries, empty, find, insert, find-empty, find-insert}
use retro_park.Abi.{RpResult, CoreType, GraphicsApi, InputState, neutral}
use retro_park.Loader.CoreLoader.Passes.{live}
use retro_park.Net.Protocol
use retro_park.Net.Protocol.RoundTrip.{IsInputMessage}
use retro_park.Net.Machine.{Emulation}
use retro_park.Net.Rollback.Stages.{encode_input-Honest}
use retro_park.Net.Rollback.Replay.{replay}
use retro_park.Net.LockStep.{NetSession, NetStatus, tick_send, tick_recv_and_advance}
use retro_park.Net.LockStep.Follow.{InStep, Fair}
use retro_park.Net.LockStep.Play.{Ends}
use retro_park.Net.LockStep.Agreement.{Turn, run}
use retro_park.Runtime.State.{Runtime, Platform, runtime}
use retro_park.Runtime.Machine.{Observed}
use retro_park.Runtime.Unpaused.{Unpaused, unpaused, game, show}
use retro_park.Runtime.Lockstep.{runtime_tick-Ends, states_agree}
use retro_park.Cores.Word.{word}
use retro_park.Cores.Rollback.{RollbackCore, rc_create, rc_abi, with_rc}
use retro_park.Cores.Games.{rc_saved, rc_next, rc_observed}

abbrev plain : Platform RollbackCore ℕ ℕ
plain = record {
  initialize = λ b w h. (RpResult.ok, b);
  allocate_surfaces = λ b n w h. ((RpResult.ok, []), b);
  present_sync_handle = λ b. 0;
  present_consume_sync_handle = λ b. 0;
  present_device_uuid = λ b. [];
  gl_context = λ b. none;
  composite = λ b c. (RpResult.ok, b + 1);
  open_output = λ rate channels. some 0;
  submit = λ out samples n. out + n;
  want_frames = λ out. (480, out);
  plug = λ a b k. k;
  calls = λ k. [];
}

-- The host holds X, the other side nothing.
abbrev x_held : InputState
x_held = record neutral { keys = set (replicate 256 0) 88 1 }

abbrev input_of : ℕ → ℕ → InputState
input_of port k = if port == 0 then x_held else neutral

-- The core after the first frame
abbrev core_at : ℕ → RollbackCore
core_at port = record rc_create {
  acc = replay rc_next port (word 5) (input_of port) (input_of (1 - port)) 1;
}

abbrev at_work : RollbackCore → Runtime RollbackCore ℕ ℕ
at_work k = record (runtime (with_rc plain) GraphicsApi.vulkan (some 0)) {
  module_ = some (some (some rc_abi));
  loader = live rc_abi k;
  core_loaded = true;
  core_type = CoreType.driven;
}

core_plays : ℕ → Unpaused RollbackCore ℕ ℕ rc_abi
unfolding runtime
core_plays port = record {
  rt = at_work (core_at port);
  k = core_at port;
  pad_0 = neutral;
  pad_1 = neutral;
  plays = (0, refl);
}

-- One side in its second frame, without a delay, and with what it has heard of the other
side : ℕ → Map InputState → NetSession (Unpaused RollbackCore ℕ ℕ rc_abi)
unfolding core_plays
side port remote = record {
  machine = core_plays port;
  sent = [];
  local_port = port;
  remote_port = 1 - port;
  delay = 0;
  frame = 1;
  status = NetStatus.ok;
  local_pending = empty;
  remote_pending = remote;
  own_crc = empty;
  peer_crc = empty;
}

abbrev clock : Runtime RollbackCore ℕ ℕ → ℕ
clock r = 5

abbrev seen : Observed (with_rc plain) rc_abi rc_saved
seen = rc_observed plain

abbrev played : Emulation (Unpaused RollbackCore ℕ ℕ rc_abi) seen.C
played = game (with_rc plain) rc_abi rc_saved clock seen

five : seen.C
unfolding rc_observed
five = word 5

side-InStep :
    (port : ℕ) (remote : Map InputState)
    → port ≤ 1
    → ((k : ℕ) (v : InputState) → find k remote ≡ some v → input_of (1 - port) k ≡ v)
    → InStep played port five (input_of port) (input_of (1 - port)) (side port remote)
unfolding side rc_observed five
side-InStep port remote two heard = record {
  two = two;
  side = refl;
  other = refl;
  now = refl;
  own = λ k v e. cc (e, find-empty {V = InputState} k);
  heard = heard;
  early_mine = λ k early. absurd (omega arith);
  early_theirs = λ k early. absurd (omega arith);
  kept = λ k from late under. absurd (omega arith);
}

-- The input of the other side is in already.
abbrev one_in : ℕ → Map InputState
one_in port = insert 1 (input_of (1 - port) 1) empty

one_in-heard :
    (port k : ℕ) (v : InputState) → find k (one_in port) ≡ some v → input_of (1 - port) k ≡ v
one_in-heard port k v e = ground (
  arith,
  find-insert 1 k (input_of (1 - port) 1) (empty {V = InputState}),
  find-empty {V = InputState} k,
)

-- The input of the other side for this frame
abbrev message : ℕ → Protocol.Input
message port = record { frame = 1; port = port; state = input_of port 1 }

message-IsInputMessage : (port : ℕ) → port ≤ 1 → IsInputMessage (message port)
message-IsInputMessage zero h = record {
  frame_u64 = omega arith;
  port_u8 = omega arith;
  input = record {
    keys_len = refl;
    axes_len = refl;
    axes_u16 = omega arith;
    buttons_u16 = omega arith;
  };
}
message-IsInputMessage (suc zero) h = record {
  frame_u64 = omega arith;
  port_u8 = omega arith;
  input = record {
    keys_len = refl;
    axes_len = refl;
    axes_u16 = omega arith;
    buttons_u16 = omega arith;
  };
}
message-IsInputMessage (suc (suc n)) h = absurd (omega arith)

message-Fair : (port : ℕ) → port ≤ 1 → Fair (input_of port) (Protocol.encode_input (message port))
message-Fair port h i e =
    sym
      (encode_input-Honest (input_of port) (message port) 1 (message-IsInputMessage port h) refl
        (omega arith) i e).0

abbrev turn_of : ℕ → Turn
turn_of port = record {
  local_now = input_of port 1;
  sends = RpResult.ok;
  sends_crc = RpResult.ok;
  polls = [];
}

abbrev ran : ℕ → NetSession (Unpaused RollbackCore ℕ ℕ rc_abi)
ran port =
    run (unpaused (with_rc plain) rc_abi rc_saved clock)
      (show (with_rc plain) rc_abi rc_saved clock) (turn_of port ∷ []) (side port (one_in port))

host_ran : ((ran 0).status ≡ NetStatus.ok) × ((ran 0).frame ≡ 2)
unfolding run side find insert empty entries
host_ran = (refl, refl)

join_ran : ((ran 1).status ≡ NetStatus.ok) × ((ran 1).frame ≡ 2)
unfolding run side find insert empty entries
join_ran = (refl, refl)

runtime_tick-Ends_example : Ends played 0 five (input_of 0) (input_of 1) (side 0 empty) (
    tick_recv_and_advance
      (unpaused (with_rc plain) rc_abi rc_saved clock)
      (show (with_rc plain) rc_abi rc_saved clock)
      ((RpResult.ok, Protocol.encode_input (message 1)) ∷ [])
      RpResult.ok
      (tick_send x_held RpResult.ok (side 0 empty)))
unfolding side
runtime_tick-Ends_example =
    runtime_tick-Ends (with_rc plain) rc_abi rc_saved clock seen 0 five (input_of 0) (input_of 1)
      x_held RpResult.ok RpResult.ok ((RpResult.ok, Protocol.encode_input (message 1)) ∷ [])
      (side 0 empty)
      (side-InStep 0 empty (omega arith) (λ k v e. cc (e, find-empty {V = InputState} k))) refl
      (message-Fair 1 (omega arith), tt) (omega arith) refl

states_agree_example : seen.look (ran 0).machine.k ≡ seen.look (ran 1).machine.k
unfolding side
states_agree_example =
    states_agree (with_rc plain) rc_abi rc_saved clock seen five (input_of 0) (input_of 1)
      (side 0 (one_in 0)) (side 1 (one_in 1)) (turn_of 0 ∷ []) (turn_of 1 ∷ [])
      (side-InStep 0 (one_in 0) (omega arith) (one_in-heard 0))
      (side-InStep 1 (one_in 1) (omega arith) (one_in-heard 1)) (refl, tt, omega arith, tt)
      (refl, tt, omega arith, tt) (cc host_ran.0) (cc join_ran.0) (cc (host_ran.1, join_ran.1))
