-- ===== src/Net/Rollback/Start.antt =====
-- `handshake`, `start_host` and `start_join` of src/net/RollbackSession.cpp. What the transport
-- answers is an argument, `Line`; texts of errors are left out.
pub mod Meet
use retro_park.Base.{
  ℕ, zero, suc, Bool, true, false, not, ◌&&◌, ◌||◌, Option, none, some, List, [], ◌∷◌, ◌++◌, length,
  ◌==◌, if◌then◌else◌,
}
use retro_park.Abi.{abi_version, RpResult, is_ok}
use retro_park.Net.Protocol
use retro_park.Net.Protocol.{
  Hello, Read, got, encode_hello, decode_hello, encode_state_sync, decode_state_sync,
}
use retro_park.Net.Machine.{Machine}
use retro_park.Net.Rollback.{Session, RbStatus}

-- What `send` and `recv` answer while a session starts: the hello that goes out and the one that
-- comes in, then the state that goes out or comes in
pub record Line : Type 0 where
  pub hello_sent : RpResult
  pub hello : RpResult × List ℕ
  pub state_sent : RpResult
  pub state : RpResult × List ℕ

-- A string in a field of `n + 1` bytes, cut and filled up with zeros
fill : ℕ → List ℕ → List ℕ
fill zero src = 0 ∷ []
fill (suc n) [] = 0 ∷ fill n []
fill (suc n) (b ∷ src) = b ∷ fill n src

-- `src` is the bytes of the string before its end, or a null pointer.
pub set_core_id : Option (List ℕ) → List ℕ
unfolding fill
set_core_id none = fill 63 []
set_core_id (some src) = fill 63 src

-- `strncmp` of two fields of one length is 0.
same_string : List ℕ → List ℕ → Bool
same_string [] [] = true
same_string (a ∷ xs) (b ∷ ys) = let rest = same_string xs ys in a == b && (a == 0 || rest)
same_string _ _ = false

abbrev pub my_hello : ℕ → ℕ → Option (List ℕ) → Hello
my_hello max_prediction content_hash core_id = record {
  abi_version = abi_version;
  core_id = set_core_id core_id;
  content_hash = content_hash;
  input_delay = max_prediction;
  start_frame = 0;
}

module _ {S : Type 0} where
  -- The guards on the hello that came in
  pub agree : Bool → Hello → Read Hello → Session S → RpResult × Session S
  agree is_host mine (got peer) s =
      let chosen = if is_host then mine.input_delay else peer.input_delay in
      if not (peer.abi_version == abi_version)
      then (RpResult.abi_mismatch, s)
      else if not (peer.content_hash == mine.content_hash)
          || not (same_string peer.core_id mine.core_id)
      then (RpResult.bad_arg, s)
      else (RpResult.ok, record s { max_prediction = if chosen == 0 then 8 else chosen })
  agree is_host mine _ s = (RpResult.internal, s)

  pub handshake : Bool → ℕ → ℕ → Option (List ℕ) → Line → Session S → RpResult × Session S
  unfolding agree
  handshake is_host max_prediction content_hash core_id l s =
      let mine = my_hello max_prediction content_hash core_id in
      let s' = record s { sent = s.sent ++ encode_hello mine ∷ [] } in
      if not (is_ok l.hello_sent)
      then (RpResult.device, s)
      else if not (is_ok l.hello.0)
      then (RpResult.device, s')
      else agree is_host mine (decode_hello l.hello.1) s'

  -- The first two lines of `start_host` and of `start_join`
  pub reset : ℕ → ℕ → Session S → Session S
  reset local_port remote_port s = record s {
    local_port = local_port;
    remote_port = remote_port;
    frame = 0;
    confirmed = 0;
    have_confirmed = false;
    verified = 0;
    rollback_count = 0;
    status = RbStatus.ok;
  }

module _ {S : Type 0} (rt : Machine S) where
  pub start_host : ℕ → ℕ → Option (List ℕ) → Line → Session S → RpResult × Session S
  unfolding handshake reset
  start_host max_prediction content_hash core_id l s =
      let (r, s') = handshake true max_prediction content_hash core_id l (reset 0 1 s) in
      let size = rt.serialize_size s'.machine in
      let (saves, blob) = rt.save_state s'.machine size in
      let state = if size == 0 then [] else blob in
      let message = encode_state_sync (record { frame = 0; blob = state }) in
      if not (is_ok r)
      then (r, s')
      else if not (size == 0) && not (is_ok saves)
      then (RpResult.internal, s')
      else if not (is_ok l.state_sent)
      then (RpResult.device, s')
      else (RpResult.ok, record s' { sent = s'.sent ++ message ∷ [] })

  load_first : Read Protocol.StateSync → Session S → RpResult × Session S
  load_first (got m) s =
      let (r, machine) = rt.load_state s.machine m.blob in
      if length m.blob == 0
      then (RpResult.ok, s)
      else (if is_ok r then RpResult.ok else RpResult.unsupported, record s { machine = machine })
  load_first _ s = (RpResult.internal, s)

  pub start_join : ℕ → Option (List ℕ) → Line → Session S → RpResult × Session S
  unfolding handshake reset load_first
  start_join content_hash core_id l s =
      let (r, s') = handshake false 0 content_hash core_id l (reset 1 0 s) in
      if not (is_ok r)
      then (r, s')
      else if not (is_ok l.state.0)
      then (RpResult.device, s')
      else load_first (decode_state_sync l.state.1) s'
