-- ===== src/Net/Rollback/Start/Meet.antt =====
-- Two sides that start a session with each other (src/net/RollbackSession.cpp)
use retro_park.Base.{
  ℕ, zero, suc, ◌+◌, ◌^◌, ◌≤◌, ◌<◌, ◌≡◌, refl, ap, sym, ◌∙◌, Bool, true, false, Option, none, some,
  List, [], ◌∷◌, ◌++◌, arith, length, set, ◌==◌, if◌then◌else◌, ==_refl,
}
use retro_park.Base.Map.{empty, find-empty}
use retro_park.Abi.{RpResult, InputState}
use retro_park.Net.Protocol
use retro_park.Net.Protocol.{
  Hello, Read, got, encode_hello, decode_hello, encode_state_sync, decode_state_sync,
}
use retro_park.Net.Protocol.Whole.{decode_hello_lem, decode_state_sync_lem}
use retro_park.Net.Machine.{Emulation}
use retro_park.Net.Rollback.{Session}
use retro_park.Net.Rollback.Start.{
  Line, fill, set_core_id, same_string, my_hello, agree, handshake, reset, start_host, load_first,
  start_join,
}
use retro_park.Net.Rollback.Replay.{replay_start}
use retro_park.Net.Rollback.Reconcile.{Plays}

fill-length : (n : ℕ) (src : List ℕ) → length (fill n src) ≡ n + 1
unfolding fill
fill-length zero src = refl
fill-length (suc n) [] = omega (arith, fill-length n [])
fill-length (suc n) (b ∷ src) = omega (arith, fill-length n src)

fill-set : (n : ℕ) (src : List ℕ) → set (fill n src) n 0 ≡ fill n src
unfolding fill
fill-set zero src = refl
fill-set (suc n) [] = ap (λ l. 0 ∷ l) (fill-set n [])
fill-set (suc n) (b ∷ src) = ap (λ l. b ∷ l) (fill-set n src)

same_string_refl : (xs : List ℕ) → same_string xs xs ≡ true
unfolding same_string
same_string_refl [] = refl
same_string_refl (x ∷ xs) = ground (arith, same_string_refl xs)

set_core_id-length : (core_id : Option (List ℕ)) → length (set_core_id core_id) ≡ 64
unfolding set_core_id
set_core_id-length none = fill-length 63 []
set_core_id-length (some src) = fill-length 63 src

set_core_id-set : (core_id : Option (List ℕ)) → set (set_core_id core_id) 63 0 ≡ set_core_id core_id
unfolding set_core_id
set_core_id-set none = fill-set 63 []
set_core_id-set (some src) = fill-set 63 src

-- The hello of a side comes back whole at the other one.
decode-my_hello :
    (max_prediction content_hash : ℕ) (core_id : Option (List ℕ))
    → max_prediction < 2 ^ 32
    → content_hash < 2 ^ 64
    → decode_hello (encode_hello (my_hello max_prediction content_hash core_id))
      ≡ got (my_hello max_prediction content_hash core_id)
decode-my_hello max_prediction content_hash core_id hm hc =
    let h = my_hello max_prediction content_hash core_id in
    decode_hello_lem h (record {
      version = omega arith;
      id_len = set_core_id-length core_id;
      hash = hc;
      delay = hm;
      start = omega arith;
    })
    ∙ ap (λ id. got (record h { core_id = id })) (set_core_id-set core_id)

-- What the host hears of a joiner
abbrev pub host_line : ℕ → Option (List ℕ) → Line
host_line content_hash core_id = record {
  hello_sent = RpResult.ok;
  hello = (RpResult.ok, encode_hello (my_hello 0 content_hash core_id));
  state_sent = RpResult.ok;
  state = (RpResult.ok, []);
}

module _ {S C : Type 0} (em : Emulation S C) where
  open em use {rt, core, image, laws}

  -- The host lets a joiner in that names the same core and content.
  greets :
      {T : Type 0} (is_host : Bool) (mine peer content_hash : ℕ) (core_id : Option (List ℕ))
      (s : Session T)
      → agree is_host
          (my_hello mine content_hash core_id)
          (got (my_hello peer content_hash core_id))
          s
        ≡ (
          RpResult.ok,
          record s {
            max_prediction =
                let chosen = if is_host then mine else peer in if chosen == 0 then 8 else chosen;
          },
        )
  unfolding agree
  greets is_host mine peer content_hash core_id s =
      rw (==_refl content_hash, same_string_refl (set_core_id core_id)) refl

  -- Where both hellos go through, a handshake sends one message and settles the prediction window.
  handshake_lem :
      {T : Type 0} (is_host : Bool) (mine peer content_hash : ℕ) (core_id : Option (List ℕ))
      (r : RpResult) (state : RpResult × List ℕ) (s : Session T)
      → peer < 2 ^ 32
      → content_hash < 2 ^ 64
      → handshake is_host mine content_hash core_id
          (record {
            hello_sent = RpResult.ok;
            hello = (RpResult.ok, encode_hello (my_hello peer content_hash core_id));
            state_sent = r;
            state = state;
          })
          s
        ≡ (
          RpResult.ok,
          record s {
            sent = s.sent ++ encode_hello (my_hello mine content_hash core_id) ∷ [];
            max_prediction =
                let chosen = if is_host then mine else peer in if chosen == 0 then 8 else chosen;
          },
        )
  unfolding handshake
  handshake_lem is_host mine peer content_hash core_id r state s hp hc =
      let s' = record s {
        sent = s.sent ++ encode_hello (my_hello mine content_hash core_id) ∷ [];
      } in
      ap (λ h. agree is_host (my_hello mine content_hash core_id) h s')
        (decode-my_hello peer content_hash core_id hp hc)
      ∙ greets is_host mine peer content_hash core_id s'

  fresh-Plays :
      (port : ℕ) (two : port ≤ 1) (mine real : ℕ → InputState) (s : Session S) (m : ℕ)
      (sent : List (List ℕ)) (machine : S) (c : C)
      → s.remote ≡ empty
      → core machine ≡ c
      → Plays em port c mine real 0 (record (reset port (if port == 0 then 1 else 0) s) {
        max_prediction = m;
        sent = sent;
        machine = machine;
      })
  unfolding reset
  fresh-Plays port two mine real s m sent machine c none_in e = (
    real,
    record {
      side = refl;
      other = refl;
      two = two;
      now = e ∙ sym (replay_start em.step port c mine real);
      saved = λ k lo hi. absurd (omega arith);
      played = λ k lo hi. absurd (omega arith);
      assumed = λ k lo hi. absurd (omega arith);
      proven = λ k hi. absurd (omega arith);
      heard = λ k i lo e. cc (find-empty {V = InputState} k, none_in);
      received = λ h. cc;
      reached = omega arith;
    },
  )

  abbrev pub first_state : Session S → List ℕ
  first_state s = encode_state_sync (record { frame = 0; blob = image (core s.machine) })

  -- What the joiner hears of a host
  abbrev pub join_line : ℕ → ℕ → Option (List ℕ) → Session S → Line
  join_line max_prediction content_hash core_id host = record {
    hello_sent = RpResult.ok;
    hello = (RpResult.ok, encode_hello (my_hello max_prediction content_hash core_id));
    state_sent = RpResult.ok;
    state = (RpResult.ok, first_state host);
  }

  module _ (max_prediction content_hash : ℕ) (core_id : Option (List ℕ))
      (prediction_u32 : max_prediction < 2 ^ 32) (hash_u64 : content_hash < 2 ^ 64) where
    start_host_lem :
        (s : Session S)
        → start_host rt max_prediction content_hash core_id (host_line content_hash core_id) s ≡ (
          RpResult.ok,
          record (reset 0 1 s) {
            max_prediction = if max_prediction == 0 then 8 else max_prediction;
            sent =
                s.sent
                ++ encode_hello (my_hello max_prediction content_hash core_id) ∷ []
                ++ first_state s ∷ [];
          },
        )
    unfolding start_host
    start_host_lem s =
        let taken =
          handshake_lem true max_prediction 0 content_hash core_id RpResult.ok (RpResult.ok, [])
            (reset 0 1 s) (omega arith) hash_u64 in
        let some_bytes : (rt.serialize_size s.machine == 0) ≡ false =
          ground (arith, laws.sizes s.machine) in
        rw (taken, laws.saves s.machine, some_bytes) refl

    start_join_lem :
        (host s : Session S)
        → 0 < length (image (core host.machine))
        → length (image (core host.machine)) < 2 ^ 32
        → start_join rt content_hash core_id (join_line max_prediction content_hash core_id host) s
          ≡ (
            RpResult.ok,
            record (reset 1 0 s) {
              max_prediction = if max_prediction == 0 then 8 else max_prediction;
              sent = s.sent ++ encode_hello (my_hello 0 content_hash core_id) ∷ [];
              machine = (rt.load_state s.machine (image (core host.machine))).1;
            },
          )
    unfolding start_join load_first
    start_join_lem host s some_bytes u32 =
        let taken =
          handshake_lem false 0 max_prediction content_hash core_id RpResult.ok
            (RpResult.ok, first_state host) (reset 1 0 s) prediction_u32 hash_u64 in
        let blob : Protocol.StateSync = record { frame = 0; blob = image (core host.machine) } in
        let there : (length (image (core host.machine)) == 0) ≡ false = ground arith in
        rw
          (
            taken,
            decode_state_sync_lem blob (omega arith) u32,
            there,
            laws.loads s.machine (core host.machine),
          )
          refl

    -- A host and a joiner that name one core and one content, and whose messages all come through,
    -- both start: each sends what the other hears, they agree on the prediction window, and they
    -- begin one game at the state that the host's core was in. Neither has an input of an earlier
    -- session in its maps, and the saved state is not empty and fits into a message.
    pub starts_agree :
        (h j : Session S) (host_inputs join_inputs : ℕ → InputState)
        → h.remote ≡ empty
        → j.remote ≡ empty
        → 0 < length (image (core h.machine))
        → length (image (core h.machine)) < 2 ^ 32
        → ((start_host rt max_prediction content_hash core_id (host_line content_hash core_id) h).0
            ≡ RpResult.ok)
          × ((start_join rt content_hash core_id
                (join_line max_prediction content_hash core_id h)
                j).0
              ≡ RpResult.ok)
          × ((start_host rt max_prediction content_hash core_id
                (host_line content_hash core_id)
                h).1.sent
              ≡ h.sent
                ++ (join_line max_prediction content_hash core_id h).hello.1 ∷ []
                ++ (join_line max_prediction content_hash core_id h).state.1 ∷ [])
          × ((start_join rt content_hash core_id
                (join_line max_prediction content_hash core_id h)
                j).1.sent
              ≡ j.sent ++ (host_line content_hash core_id).hello.1 ∷ [])
          × ((start_host rt max_prediction content_hash core_id
                (host_line content_hash core_id)
                h).1.max_prediction
              ≡ (start_join rt content_hash core_id
                  (join_line max_prediction content_hash core_id h)
                  j).1.max_prediction)
          × Plays em 0
              (core h.machine)
              host_inputs
              join_inputs
              0
              (start_host rt max_prediction content_hash core_id
                (host_line content_hash core_id)
                h).1
          × Plays em 1
              (core h.machine)
              join_inputs
              host_inputs
              0
              (start_join rt content_hash core_id
                (join_line max_prediction content_hash core_id h)
                j).1
    unfolding reset
    starts_agree h j host_inputs join_inputs no_h no_j some_bytes u32 =
        rw (start_host_lem h, start_join_lem h j some_bytes u32)
          (
            refl,
            refl,
            refl,
            refl,
            refl,
            fresh-Plays 0 (omega arith) host_inputs join_inputs h _ _ h.machine (core h.machine)
                no_h refl,
            fresh-Plays 1 (omega arith) join_inputs host_inputs j _ _ _ (core h.machine) no_j
                (laws.loads_core j.machine (core h.machine)),
          )
