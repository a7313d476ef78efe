-- ===== src/Net/Rollback.antt =====
-- src/net/RollbackSession.h and RollbackSession.cpp: one side of a rollback session.
-- What a session reads of the network during a tick is an argument, `Wire`; what it sends is appended
-- to `sent`. `rt_` is the field `machine`, and moves by the calls of a `Machine`.
pub mod Predict
pub mod Replay
pub mod Tracks
pub mod Resimulate
pub mod Counters
pub mod Stages
pub mod Reconcile
pub mod Tick
pub mod Correct
pub mod Agreement
pub mod Start
mod Tests
use retro_park.Base.{
  ℕ, zero, suc, ◌+◌, ◌-◌, ◌%◌, ◌^◌, ◌≡◌, ◌≢◌, refl, Bool, true, false, not, ◌&&◌, ◌||◌, Option,
  none, some, List, [], ◌∷◌, ◌++◌, ltb, leb, ◌==◌, if◌then◌else◌,
}
use retro_park.Base.Map.{Map, entries, find, find_or, insert, touch, prune_below}
use retro_park.Abi.{RpResult, is_ok, InputState, neutral}
use retro_park.Net.Protocol
use retro_park.Net.Protocol.{Read, got}
use retro_park.Net.Protocol.MsgType
use retro_park.Net.Crc32.{crc32}
use retro_park.Net.Machine.{Machine}
use Predict.{predict, first_mispredicted, none_mispredicted}

pub data RbStatus : Type 0 where
  ok stalled desync disconnected : RbStatus

pub record Session (S : Type 0) : Type 0 where
  pub machine : S
  pub sent : List (List ℕ)
  pub local_port : ℕ
  pub remote_port : ℕ
  pub max_prediction : ℕ
  pub frame : ℕ
  pub confirmed : ℕ
  pub have_confirmed : Bool
  pub verified : ℕ
  pub rollback_count : ℕ
  pub status : RbStatus
  pub ring : Map (List ℕ)
  pub local : Map InputState
  pub remote : Map InputState
  pub used : Map InputState
  pub own_crc : Map ℕ
  pub peer_crc : Map ℕ

-- What the transport answers in one tick: whether the input goes out, and what each poll returns.
-- A poll after the last one listed finds nothing.
pub record Wire : Type 0 where
  pub send : RpResult
  pub polls : List (RpResult × List ℕ)

-- A statement of `tick` goes on, or returns from it.
pub data Flow (S : Type 0) : Type 0 where
  next returns : Session S → Flow S

infixl 5 ◌>>=◌
abbrev pub ◌>>=◌ : {S : Type 0} → Flow S → (Session S → Flow S) → Flow S
next s >>= f = f s
returns s >>= f = returns s

abbrev pub finish : {S : Type 0} → Flow S → Session S
finish (next s) = s
finish (returns s) = s

-- `if (status_ == RbStatus::Disconnected) …`
abbrev pub if_disconnected : {A : Type 0} → RbStatus → A → A → A
if_disconnected RbStatus.disconnected x y = x
if_disconnected _ x y = y

pub if_disconnected-of_ne :
    {A : Type 0} (status : RbStatus) (x y : A)
    → status ≢ RbStatus.disconnected
    → if_disconnected status x y ≡ y
if_disconnected-of_ne RbStatus.disconnected x y ne = absurd (ne refl)
if_disconnected-of_ne _ x y ne = refl

pub if_disconnected_cases :
    {A : Type 0} (P : A → Type 0) (status : RbStatus) (x y : A)
    → (status ≡ RbStatus.disconnected → P x)
    → P y
    → P (if_disconnected status x y)
if_disconnected_cases P RbStatus.disconnected x y cut runs = cut refl
if_disconnected_cases P _ x y cut runs = runs

-- `uint64_t` addition
abbrev pub add_u64 : ℕ → ℕ → ℕ
add_u64 a b = (a + b) % 2 ^ 64

abbrev pub checksum_every : ℕ
checksum_every = 60

module _ {S : Type 0} where
  -- `if (decode_input(in, m)) { remote_[m.frame] = m.state; … }`
  pub take_input : Read Protocol.Input → Session S → Session S
  take_input (got i) s =
      let newer = not s.have_confirmed || ltb s.confirmed i.frame in
      record s {
        remote = insert i.frame i.state s.remote;
        confirmed = if newer then i.frame else s.confirmed;
        have_confirmed = newer || s.have_confirmed;
      }
  take_input _ s = s

  pub take_checksum : Read Protocol.Checksum → Session S → Session S
  take_checksum (got c) s = record s { peer_crc = insert c.frame c.crc s.peer_crc }
  take_checksum _ s = s

  -- The body of the drain loop, once a message is in
  pub receive : List ℕ → Session S → Session S
  receive bytes s = elim (Protocol.peek_type bytes) [
    | none ↦ s
    | some t ↦
        if t == MsgType.input
        then take_input (Protocol.decode_input bytes) s
        else if t == MsgType.checksum
        then take_checksum (Protocol.decode_checksum bytes) s
        else s
  ]

  pub drain : List (RpResult × List ℕ) → Session S → Flow S
  drain [] s = next s
  drain ((RpResult.ok, bytes) ∷ polls) s = drain polls (receive bytes s)
  drain ((RpResult.not_found, bytes) ∷ polls) s = next s
  drain ((failure, bytes) ∷ polls) s = returns (record s { status = RbStatus.disconnected })

  -- `remote_.count(f) ? remote_[f] : rb_predict(remote_, confirmed_)`
  pub remote_input : ℕ → Session S → InputState
  remote_input f s = elim (find f s.remote) [ none ↦ predict s.remote s.confirmed | some i ↦ i ]

  pub check_desync_over : List (ℕ × ℕ) → Session S → Session S
  check_desync_over [] s = s
  check_desync_over ((f, crc) ∷ own) s =
      let rest = check_desync_over own s in
      elim (find f s.peer_crc) [
        | none ↦ rest
        | some peer ↦ if peer == crc then rest else record s { status = RbStatus.desync }
      ]

  pub check_desync : Session S → Session S
  unfolding check_desync_over
  check_desync s = check_desync_over (entries s.own_crc) s

  -- `max_prediction_ + 2` is a sum of `uint32_t`.
  pub prune : Session S → Session S
  prune s =
      let slack = (s.max_prediction + 2) % 2 ^ 32 in
      let floor = if ltb slack s.verified then s.verified - slack else 0 in
      record s {
        ring = prune_below floor s.ring;
        local = prune_below floor s.local;
        remote = prune_below floor s.remote;
        used = prune_below floor s.used;
      }

  pub maybe_send_checksum : Session S → Session S
  maybe_send_checksum s =
      if s.verified == 0 || not (s.verified % checksum_every == 0)
      then s
      else elim (find s.verified s.ring) [
        | none ↦ s
        | some state ↦
            let crc = crc32 state in
            record s {
              own_crc = insert s.verified crc s.own_crc;
              sent =
                  s.sent
                  ++ Protocol.encode_checksum (record { frame = s.verified; crc = crc }) ∷ [];
            }
      ]

  -- `maybe_send_checksum(); check_desync(); prune();`
  pub close_tick : Session S → Session S
  unfolding maybe_send_checksum check_desync prune
  close_tick s = prune (check_desync (maybe_send_checksum s))

module _ {S : Type 0} (rt : Machine S) where
  pub save_ring : ℕ → Session S → Session S
  save_ring f s =
      let size = rt.serialize_size s.machine in
      let (r, bytes) = rt.save_state s.machine size in
      if size == 0
      then record s { ring = insert f [] s.ring }
      else if is_ok r
      then record s { ring = insert f bytes s.ring }
      else s

  -- `used_[f] = rin`, the two `rp_runtime_set_input` calls and `rp_runtime_advance`
  pub run_frame : ℕ → InputState → ℕ → Session S → RpResult × Session S
  run_frame f mine emit_audio s =
      let rin = remote_input f s in
      let m = rt.set_input (rt.set_input s.machine s.local_port mine) s.remote_port rin in
      let (r, m') = rt.advance m emit_audio in
      (r, record s { used = insert f rin s.used; machine = m' })

  -- `for (uint64_t f = g; f < F; ++f)`, with the rounds left
  pub resimulate : ℕ → ℕ → Session S → Flow S
  resimulate zero f s = next s
  resimulate (suc n) f s =
      let mine = find_or f neutral s.local in
      let (r, s') = run_frame f mine 0 (record s { local = touch f neutral s.local }) in
      let rest = resimulate n (f + 1) (save_ring (f + 1) s') in
      if is_ok r then rest else returns (record s' { status = RbStatus.desync })

  -- The body of `if (g != UINT64_MAX)`
  pub roll_back : ℕ → Session S → Flow S
  roll_back g s =
      let state = find_or g [] s.ring in
      let s' = record s { ring = touch g [] s.ring } in
      let (r, m) = rt.load_state s.machine state in
      if is_ok r
      then resimulate (s.frame - g) g (record s' { machine = m })
        >>= (λ s''. next (record s'' { rollback_count = add_u64 s''.rollback_count 1 }))
      else returns (record s' { machine = m; status = RbStatus.desync })

  -- 3. reconcile [verified_, min(confirmed_, F-1)]
  pub reconcile : Session S → Flow S
  reconcile s =
      let hi = if ltb s.confirmed (s.frame - 1) then s.confirmed else s.frame - 1 in
      let g = first_mispredicted s.remote s.used s.verified hi in
      if s.have_confirmed && ltb 0 s.frame && leb s.verified hi
      then (if g == none_mispredicted then next s else roll_back g s)
        >>= (λ s'. next (record s' { verified = hi + 1 }))
      else next s

  -- 4. stall guard
  pub ahead : Session S → ℕ
  ahead s =
      if ltb 0 s.frame && s.have_confirmed && ltb s.confirmed (s.frame - 1)
      then s.frame - 1 - s.confirmed
      else 0

  pub stall : Session S → Session S
  unfolding close_tick
  stall s =
      let s' = close_tick (record s { machine = rt.render s.machine }) in
      record s' { status = RbStatus.stalled }

  -- 5. simulate + display F, 6. desync + prune
  pub simulate : InputState → Session S → Session S
  unfolding run_frame save_ring close_tick
  simulate local_now s =
      let (r, s') = run_frame s.frame local_now 1 (save_ring s.frame s) in
      let shown = record s' { machine = rt.render s'.machine; frame = add_u64 s'.frame 1 } in
      if is_ok r
      then record (close_tick shown) { status = RbStatus.ok }
      else record s' { status = RbStatus.desync }

  -- 1. local input + send
  pub send_input : InputState → RpResult → Session S → Flow S
  send_input local_now sent s =
      let message =
        Protocol.encode_input
          (record { frame = s.frame; port = s.local_port % 2 ^ 8; state = local_now }) in
      let s' = record s { local = insert s.frame local_now s.local } in
      elim sent [
        | RpResult.ok ↦ next (record s' { sent = s.sent ++ message ∷ [] })
        | _ ↦ returns (record s' { status = RbStatus.disconnected })
      ]

  -- What `tick` returns is the `status` that it leaves, on every path.
  pub tick : InputState → Wire → Session S → Session S
  unfolding send_input drain reconcile ahead stall simulate
  tick local_now w s = if_disconnected s.status s (
      finish (
        send_input local_now w.send s >>= drain w.polls >>= reconcile >>= λ s'.
        if leb s'.max_prediction (ahead s')
        then returns (stall s')
        else next (simulate local_now s')))
