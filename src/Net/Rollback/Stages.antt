-- ===== src/Net/Rollback/Stages.antt =====
-- Each stage of `tick` in src/net/RollbackSession.cpp keeps the session on the game that it tracks.
use retro_park.Base.{
  ℕ, ◌+◌, ◌-◌, ◌%◌, ◌^◌, ◌≤◌, ◌<◌, ◌≡◌, refl, sym, ap, ◌∙◌, false, some, List, [], ◌∷◌, inl, inr,
  arith, Bool-cases, Option-cases, if◌then◌else◌, ◌==◌, ltb, ◌||◌, not,
}
use retro_park.Base.Map.{entries, find, find-insert, find-prune_below}
use retro_park.Abi.{RpResult, InputState}
use retro_park.Net.Protocol
use retro_park.Net.Protocol.{Read, got, refused, out_of_bounds}
use retro_park.Net.Protocol.MsgType
use retro_park.Net.Protocol.Bounds.{decode_input-refused}
use retro_park.Net.Protocol.RoundTrip.{IsInputMessage}
use retro_park.Net.Protocol.Whole.{decode_input_lem, peek_type-encode_input}
use retro_park.Net.Machine.{Emulation}
use retro_park.Net.Rollback.{
  Session, RbStatus, checksum_every, receive, take_input, take_checksum, check_desync, prune,
  maybe_send_checksum, close_tick,
}
use retro_park.Net.Rollback.Replay.{replay, replay_ext}
use retro_park.Net.Rollback.Counters.{check_desync_over-status}
use retro_park.Net.Rollback.Tracks.{Tracks, Tracks-rest}

-- How many frames of the other side a session has heard: it waits for this one next.
abbrev pub expected : {S : Type 0} → Session S → ℕ
expected s = if s.have_confirmed then s.confirmed + 1 else 0

-- A message is no input, or the input of a frame heard before or of the next one, as it was played.
abbrev pub Honest : (ℕ → InputState) → List ℕ → ℕ → Type 0
Honest real bytes e =
    (i : Protocol.Input)
    → Protocol.decode_input bytes ≡ got i
    → (i.state ≡ real i.frame) × (i.frame ≤ e)

pub encode_input-Honest :
    (real : ℕ → InputState) (i : Protocol.Input) (e : ℕ)
    → IsInputMessage i
    → i.state ≡ real i.frame
    → i.frame ≤ e
    → Honest real (Protocol.encode_input i) e
encode_input-Honest real i e h state next j decoded =
    let same : j ≡ i = cc (decode_input_lem i h) in rw same (state, next)

-- The message that a side sends in a tick is taken by the other side.
pub receive-encode_input :
    {S : Type 0} (i : Protocol.Input) (s : Session S)
    → IsInputMessage i
    → receive (Protocol.encode_input i) s ≡ take_input (got i) s
unfolding receive
receive-encode_input i s h = rw (receive, peek_type-encode_input i, decode_input_lem i h) refl

abbrev pub hear : Read Protocol.Input → ℕ → ℕ
hear (got i) e = if i.frame == e then e + 1 else e
hear _ e = e

-- The polls of a tick, where `e` frames were heard before
abbrev pub Heard : (ℕ → InputState) → List (RpResult × List ℕ) → ℕ → Type 0
Heard real [] e = Unit {0}
Heard real ((RpResult.ok, bytes) ∷ polls) e =
    Honest real bytes e × Heard real polls (hear (Protocol.decode_input bytes) e)
Heard real ((_, bytes) ∷ polls) e = Unit {0}

module _ {S C : Type 0} (em : Emulation S C) (port : ℕ) (c : C) (mine real theirs : ℕ → InputState)
    (f b : ℕ) where
  open em use {step}

  -- Inputs assumed from frame `f` on are still open.
  pub Tracks-ext :
      (theirs' : ℕ → InputState) {s : Session S}
      → Tracks em port c mine real theirs f b s
      → ((k : ℕ) → k < f → theirs k ≡ theirs' k)
      → Tracks em port c mine real theirs' f b s
  Tracks-ext theirs' {s} t same = record {
    side = t.side;
    other = t.other;
    two = t.two;
    now = t.now ∙ state f (omega arith);
    saved = λ k lo hi. t.saved k lo hi ∙ ap (λ x. some (em.image x)) (state k (omega arith));
    played = t.played;
    assumed = λ k lo hi. t.assumed k lo hi ∙ ap some (same k hi);
    proven = λ k lt. sym (same k (omega (arith, t.reached))) ∙ t.proven k lt;
    heard = t.heard;
    received = t.received;
    reached = t.reached;
  }
    where
      state : (k : ℕ) → k ≤ f → replay step port c mine theirs k ≡ replay step port c mine theirs' k
      state k hk =
          replay_ext step port c mine mine theirs theirs' k (λ j lt. refl)
            (λ j lt. same j (omega arith))

  pub Tracks-verified :
      (v : ℕ) {s : Session S}
      → Tracks em port c mine real theirs f b s
      → s.verified ≤ v
      → v ≤ f
      → ((k : ℕ) → k < v → theirs k ≡ real k)
      → Tracks em port c mine real theirs f b (record s { verified = v })
  Tracks-verified v t lo hi proven = record {
    side = t.side;
    other = t.other;
    two = t.two;
    now = t.now;
    saved = λ k l. t.saved k (omega arith);
    played = λ k l. t.played k (omega arith);
    assumed = λ k l. t.assumed k (omega arith);
    proven = proven;
    heard = λ k i l. t.heard k i (omega arith);
    received = λ h k l. t.received h k (omega arith);
    reached = hi;
  }

  take_input-Tracks :
      (r : Read Protocol.Input) {s : Session S}
      → Tracks em port c mine real theirs f b s
      → ((i : Protocol.Input) → r ≡ got i → (i.state ≡ real i.frame) × (i.frame ≤ expected s))
      → Tracks em port c mine real theirs f b (take_input r s)
        × (expected (take_input r s) ≡ hear r (expected s))
  unfolding take_input
  take_input-Tracks refused t h = (t, refl)
  take_input-Tracks out_of_bounds t h = (t, refl)
  take_input-Tracks (got i) {s} t h =
      let (state, next) = h i refl in
      (
        record {
          side = t.side;
          other = t.other;
          two = t.two;
          now = t.now;
          saved = t.saved;
          played = t.played;
          assumed = t.assumed;
          proven = t.proven;
          heard = λ k j lo e.
              ground (arith, find-insert i.frame k i.state s.remote, t.heard k j lo, state);
          received = λ some_heard k lo hi. elim (Bool-cases s.have_confirmed) [
            | inl before ↦
                ground
                  (arith, find-insert i.frame k i.state s.remote, t.received before k lo, state)
            | inr first ↦ ground (arith, find-insert i.frame k i.state s.remote, state)
          ];
          reached = t.reached;
        },
        ground arith,
      )

  take_checksum-Tracks :
      (r : Read Protocol.Checksum) {s : Session S}
      → Tracks em port c mine real theirs f b s
      → Tracks em port c mine real theirs f b (take_checksum r s)
        × (expected (take_checksum r s) ≡ expected s)
  unfolding take_checksum
  take_checksum-Tracks refused t = (t, refl)
  take_checksum-Tracks out_of_bounds t = (t, refl)
  take_checksum-Tracks (got k) {s} t = (
    Tracks-rest em port c mine real theirs f b s.frame s.rollback_count s.status s.sent s.own_crc _
        t,
    refl,
  )

  -- A message keeps the invariant.
  pub receive-Tracks :
      (bytes : List ℕ) {s : Session S}
      → Tracks em port c mine real theirs f b s
      → Honest real bytes (expected s)
      → Tracks em port c mine real theirs f b (receive bytes s)
        × (expected (receive bytes s) ≡ hear (Protocol.decode_input bytes) (expected s))
  unfolding receive
  receive-Tracks bytes {s} t h = elim (Option-cases (Protocol.peek_type bytes)) [
    | inl none_in ↦ rw (none_in, receive, decode_input-refused bytes (λ k e. cc)) (t, refl)
    | inr (k, e) ↦ elim (Bool-cases (k == MsgType.input)) [
      | inl is_input ↦
          rw (e, receive, is_input) (take_input-Tracks (Protocol.decode_input bytes) t h)
      | inr other ↦
          let r : Protocol.decode_input bytes ≡ refused =
            decode_input-refused bytes (λ j e'. ground (arith, e, e', other)) in
          elim (Bool-cases (k == MsgType.checksum)) [
            | inl is_checksum ↦
                rw (e, receive, other, is_checksum, r)
                  (take_checksum-Tracks (Protocol.decode_checksum bytes) t)
            | inr ignored ↦ rw (e, receive, other, ignored, r) (t, refl)
          ]
    ]
  ]

  -- Entries from the verified frame on survive a pruning.
  prune-Tracks :
      {s : Session S}
      → Tracks em port c mine real theirs f b s
      → Tracks em port c mine real theirs f b (prune s)
  unfolding prune
  prune-Tracks {s} t = record {
    side = t.side;
    other = t.other;
    two = t.two;
    now = t.now;
    saved = λ k lo hi. rw (find-prune_below, above k lo) (t.saved k lo hi);
    played = λ k lo hi. rw (find-prune_below, above k lo) (t.played k lo hi);
    assumed = λ k lo hi. rw (find-prune_below, above k lo) (t.assumed k lo hi);
    proven = t.proven;
    heard = λ k i lo e. t.heard k i lo (rw (find-prune_below, above k lo) at e);
    received = λ h k lo hi. rw (find-prune_below, above k lo) (t.received h k lo hi);
    reached = t.reached;
  }
    where
      slack : ℕ
      slack = (s.max_prediction + 2) % 2 ^ 32

      above :
          (k : ℕ)
          → s.verified ≤ k
          → ltb k (if ltb slack s.verified then s.verified - slack else 0) ≡ false
      above k lo = ground arith

  check_desync-Tracks :
      {s : Session S}
      → Tracks em port c mine real theirs f b s
      → Tracks em port c mine real theirs f b (check_desync s)
  unfolding check_desync
  check_desync-Tracks {s} t = elim (check_desync_over-status (entries s.own_crc) s) [
    | inl e ↦ rw e t
    | inr e ↦ rw e (
        Tracks-rest em port c mine real theirs f b s.frame s.rollback_count RbStatus.desync s.sent
          s.own_crc s.peer_crc t)
  ]

  maybe_send_checksum-Tracks :
      {s : Session S}
      → Tracks em port c mine real theirs f b s
      → Tracks em port c mine real theirs f b (maybe_send_checksum s)
  unfolding maybe_send_checksum
  maybe_send_checksum-Tracks {s} t =
      elim (Bool-cases (s.verified == 0 || not (s.verified % checksum_every == 0))) [
        | inl no_checksum ↦ rw no_checksum t
        | inr due ↦ elim (Option-cases (find s.verified s.ring)) [
          | inl missing ↦ rw (due, missing) t
          | inr (state, e) ↦
              rw (due, e)
                (Tracks-rest em port c mine real theirs f b s.frame s.rollback_count s.status _ _
                  s.peer_crc t)
        ]
      ]

  pub close_tick-Tracks :
      {s : Session S}
      → Tracks em port c mine real theirs f b s
      → Tracks em port c mine real theirs f b (close_tick s)
  unfolding close_tick
  close_tick-Tracks t = prune-Tracks (check_desync-Tracks (maybe_send_checksum-Tracks t))
