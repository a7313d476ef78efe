-- ===== src/Net/Rollback/Tests.antt =====
-- A small game behind the runtime's calls, and rollback sessions of it at concrete inputs.
use retro_park.Base.{Option, some, ◌++◌, List, ℕ, ◌≡◌, refl, sym, false, [], ◌∷◌, arith}
use retro_park.Base.Map.{entries, find, empty, find-empty}
use retro_park.Abi.{RpResult, InputState, neutral}
use retro_park.Net.Protocol
use retro_park.Net.Toy.{Toy, toy, toy_step, toy_game, pad}
use retro_park.Net.Rollback.{
  Session, RbStatus, Wire, tick, send_input, drain, take_input, reconcile, run_frame, save_ring,
  ahead, stall, simulate, close_tick, prune, maybe_send_checksum, check_desync, check_desync_over,
}
use retro_park.Net.Protocol.RoundTrip.{IsInputMessage}
use retro_park.Net.Rollback.Replay.{replay_start}
use retro_park.Net.Rollback.Stages.{encode_input-Honest, receive-encode_input}
use retro_park.Net.Rollback.Reconcile.{Plays}
use retro_park.Net.Rollback.Correct.{Paced, tick-Paced}
use retro_park.Net.Rollback.Start.{start_host, start_join}
use retro_park.Net.Rollback.Start.Meet.{host_line, join_line, starts_agree}
use retro_park.Net.Rollback.Agreement.{run, sides_agree}

-- A fresh session of the host, as `start_host` leaves it
abbrev fresh : Session Toy
fresh = record {
  machine = record { count = 0; pad_0 = neutral; pad_1 = neutral };
  sent = [];
  local_port = 0;
  remote_port = 1;
  max_prediction = 8;
  frame = 0;
  confirmed = 0;
  have_confirmed = false;
  verified = 0;
  rollback_count = 0;
  status = RbStatus.ok;
  ring = empty;
  local = empty;
  remote = empty;
  used = empty;
  own_crc = empty;
  peer_crc = empty;
}

fresh-Plays : (mine real : ℕ → InputState) → Plays toy_game 0 0 mine real 0 fresh
fresh-Plays mine real = (
  real,
  record {
    side = refl;
    other = refl;
    two = omega arith;
    now = sym (replay_start toy_step 0 0 mine real);
    saved = λ k lo hi. absurd (omega arith);
    played = λ k lo hi. absurd (omega arith);
    assumed = λ k lo hi. absurd (omega arith);
    proven = λ k hi. absurd (omega arith);
    heard = λ k i lo e. cc (find-empty {V = InputState} k);
    received = λ h. cc;
    reached = omega arith;
  },
)

-- The host holds a button of weight 2, the other side one of weight 1.
abbrev held : Protocol.Input
held = record { frame = 0; port = 1; state = pad 1 }

held-IsInputMessage : IsInputMessage held
held-IsInputMessage = record {
  frame_u64 = omega arith;
  port_u8 = omega arith;
  input = record {
    keys_len = refl;
    axes_len = refl;
    axes_u16 = omega arith;
    buttons_u16 = omega arith;
  };
}

abbrev first_wire : Wire
first_wire = record { send = RpResult.ok; polls = (RpResult.ok, Protocol.encode_input held) ∷ [] }

tick-Paced_example :
    Paced toy_game 0 0 (λ k. pad 2) (λ k. pad 1) 0 (tick toy (pad 2) first_wire fresh)
tick-Paced_example =
    tick-Paced toy_game 0 0 (λ k. pad 2) (λ k. pad 1) (pad 2) first_wire fresh
      (fresh-Plays (λ k. pad 2) (λ k. pad 1)) (omega arith) refl
      (encode_input-Honest (λ k. pad 1) held 0 held-IsInputMessage refl (omega arith), tt)

-- The other side of the session, as `start_join` leaves it, and the input of `fresh` that it hears
abbrev joined : Session Toy
joined = record fresh { local_port = 1; remote_port = 0 }

abbrev held_too : Protocol.Input
held_too = record { frame = 0; port = 0; state = pad 2 }

held_too-IsInputMessage : IsInputMessage held_too
held_too-IsInputMessage = record {
  frame_u64 = omega arith;
  port_u8 = omega arith;
  input = record {
    keys_len = refl;
    axes_len = refl;
    axes_u16 = omega arith;
    buttons_u16 = omega arith;
  };
}

abbrev host_ticks : List (InputState × Wire)
host_ticks = (pad 2, first_wire) ∷ []

abbrev join_ticks : List (InputState × Wire)
join_ticks =
    (
      pad 1,
      record { send = RpResult.ok; polls = (RpResult.ok, Protocol.encode_input held_too) ∷ [] },
    )
    ∷ []

joined-Plays : (mine real : ℕ → InputState) → Plays toy_game 1 0 mine real 0 joined
joined-Plays mine real = (
  real,
  record {
    side = refl;
    other = refl;
    two = omega arith;
    now = sym (replay_start toy_step 1 0 mine real);
    saved = λ k lo hi. absurd (omega arith);
    played = λ k lo hi. absurd (omega arith);
    assumed = λ k lo hi. absurd (omega arith);
    proven = λ k hi. absurd (omega arith);
    heard = λ k i lo e. cc (find-empty {V = InputState} k);
    received = λ h. cc;
    reached = omega arith;
  },
)

host_progress : ((run toy host_ticks fresh).verified ≡ 0) × ((run toy host_ticks fresh).frame ≡ 1)
unfolding run tick send_input drain take_input reconcile run_frame save_ring ahead stall simulate
    close_tick prune maybe_send_checksum check_desync check_desync_over entries empty
host_progress = rw (receive-encode_input held _ held-IsInputMessage) (refl, refl)

join_progress : ((run toy join_ticks joined).verified ≡ 0) × ((run toy join_ticks joined).frame ≡ 1)
unfolding run tick send_input drain take_input reconcile run_frame save_ring ahead stall simulate
    close_tick prune maybe_send_checksum check_desync check_desync_over entries empty
join_progress = rw (receive-encode_input held_too _ held_too-IsInputMessage) (refl, refl)

sides_agree_example :
    find (run toy host_ticks fresh).verified (run toy host_ticks fresh).ring
    ≡ find (run toy join_ticks joined).verified (run toy join_ticks joined).ring
sides_agree_example =
    sides_agree toy_game 0 (λ k. pad 2) (λ k. pad 1) fresh joined host_ticks join_ticks
      (fresh-Plays (λ k. pad 2) (λ k. pad 1)) (joined-Plays (λ k. pad 1) (λ k. pad 2)) (omega arith)
      (omega arith)
      (
        refl,
        (encode_input-Honest (λ k. pad 1) held 0 held-IsInputMessage refl (omega arith), tt),
        tt,
      )
      (
        refl,
        (
          encode_input-Honest (λ k. pad 2) held_too 0 held_too-IsInputMessage refl (omega arith),
          tt,
        ),
        tt,
      )
      (cc (host_progress.0, join_progress.0)) (omega (arith, host_progress.0, host_progress.1))
      (omega (arith, join_progress.0, join_progress.1))

abbrev name : Option (List ℕ)
name = some (65 ∷ [])

abbrev host_started : RpResult × Session Toy
host_started = start_host toy 8 77 name (host_line 77 name) fresh

abbrev join_started : RpResult × Session Toy
join_started = start_join toy 77 name (join_line toy_game 8 77 name fresh) joined

starts_agree_example :
    (host_started.0 ≡ RpResult.ok)
    × (join_started.0 ≡ RpResult.ok)
    × (host_started.1.sent
        ≡ []
          ++ (join_line toy_game 8 77 name fresh).hello.1 ∷ []
          ++ (join_line toy_game 8 77 name fresh).state.1 ∷ [])
    × (join_started.1.sent ≡ [] ++ (host_line 77 name).hello.1 ∷ [])
    × (host_started.1.max_prediction ≡ join_started.1.max_prediction)
    × Plays toy_game 0 0 (λ k. pad 2) (λ k. pad 1) 0 host_started.1
    × Plays toy_game 1 0 (λ k. pad 1) (λ k. pad 2) 0 join_started.1
starts_agree_example =
    starts_agree toy_game 8 77 name (omega arith) (omega arith) fresh joined (λ k. pad 2)
      (λ k. pad 1) refl refl (omega arith) (omega arith)
