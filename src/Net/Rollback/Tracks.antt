-- ===== src/Net/Rollback/Tracks.antt =====
-- The invariant of src/net/RollbackSession.cpp: a session tracks a game played by its own inputs and
-- by some assumed inputs of the other side, and the assumed inputs are the real ones where verified.
use retro_park.Base.{
  ℕ, ◌+◌, ◌≤◌, ◌<◌, ◌≡◌, sym, ap, ◌∙◌, true, some, List, arith, ◌==◌, if◌then◌else◌,
}
use retro_park.Base.Map.{Map, find, insert, find-insert}
use retro_park.Abi.{RpResult, InputState}
use retro_park.Net.Machine.{Emulation}
use retro_park.Net.Rollback.{Session, RbStatus, remote_input, run_frame, save_ring}
use retro_park.Net.Rollback.Replay.{turn, replay, replay_next}

-- `f` frames are simulated, and own inputs are known below `b`. `theirs` is what was assumed of the
-- other side, `real` what it really played.
pub record Tracks {S C : Type 0} (em : Emulation S C) (port : ℕ) (c : C)
    (mine real theirs : ℕ → InputState) (f b : ℕ) (s : Session S) : Type 0 where
  pub side : s.local_port ≡ port
  pub other : s.remote_port ≡ (if port == 0 then 1 else 0)
  pub two : port ≤ 1
  pub now : em.core s.machine ≡ replay em.step port c mine theirs f
  pub saved :
      (k : ℕ)
      → s.verified ≤ k
      → k < f
      → find k s.ring ≡ some (em.image (replay em.step port c mine theirs k))
  pub played : (k : ℕ) → s.verified ≤ k → k < b → find k s.local ≡ some (mine k)
  pub assumed : (k : ℕ) → s.verified ≤ k → k < f → find k s.used ≡ some (theirs k)
  pub proven : (k : ℕ) → k < s.verified → theirs k ≡ real k
  pub heard : (k : ℕ) (i : InputState) → s.verified ≤ k → find k s.remote ≡ some i → i ≡ real k
  pub received :
      s.have_confirmed ≡ true
      → (k : ℕ) → s.verified ≤ k
      → k ≤ s.confirmed
      → find k s.remote ≡ some (real k)
  pub reached : s.verified ≤ f

module _ {S C : Type 0} (em : Emulation S C) (port : ℕ) (c : C) (mine real : ℕ → InputState) where
  open em use {rt, core, input, step, image, laws}

  -- The invariant is about the machine, the inputs and the ring alone.
  pub Tracks-rest :
      (theirs : ℕ → InputState) (f b : ℕ) {s : Session S} (frame rolled : ℕ) (status : RbStatus)
      (sent : List (List ℕ)) (own_crc peer_crc : Map ℕ)
      → Tracks em port c mine real theirs f b s
      → Tracks em port c mine real theirs f b (record s {
        frame = frame;
        rollback_count = rolled;
        status = status;
        sent = sent;
        own_crc = own_crc;
        peer_crc = peer_crc;
      })
  Tracks-rest theirs f b frame rolled status sent own_crc peer_crc t = record {
    side = t.side;
    other = t.other;
    two = t.two;
    now = t.now;
    saved = t.saved;
    played = t.played;
    assumed = t.assumed;
    proven = t.proven;
    heard = t.heard;
    received = t.received;
    reached = t.reached;
  }

  -- The state before frame `f` is in the ring.
  abbrev pub Holds : (ℕ → InputState) → ℕ → Session S → Type 0
  Holds theirs f s = find f s.ring ≡ some (image (replay step port c mine theirs f))

  pub save_ring-eq :
      (f : ℕ) (s : Session S)
      → save_ring rt f s ≡ record s { ring = insert f (image (core s.machine)) s.ring }
  unfolding save_ring
  save_ring-eq f s = ground (arith, laws.saves s.machine, laws.sizes s.machine)

  -- A frame runs on the two inputs that the session set.
  set_inputs :
      (m : S) (mine_port their_port e : ℕ) (x y : InputState)
      → mine_port ≡ port
      → their_port ≡ (if port == 0 then 1 else 0)
      → port ≤ 1
      → core (rt.advance (rt.set_input (rt.set_input m mine_port x) their_port y) e).1
        ≡ turn step port (core m) x y
  set_inputs m mine_port their_port e x y side other two =
      let m' = rt.set_input m mine_port x in
      ground (
        arith,
        laws.advances_core (rt.set_input m' their_port y) e,
        laws.sets_input m' their_port 0 y,
        laws.sets_input m' their_port 1 y,
        laws.sets_input m mine_port 0 x,
        laws.sets_input m mine_port 1 x,
        laws.sets_core m' their_port y,
        laws.sets_core m mine_port x,
      )

  module _ (theirs : ℕ → InputState) where
    -- Saving the present state keeps the invariant, and the state is in the ring from then on.
    pub save_ring-Tracks :
        (f b : ℕ) (s : Session S)
        → Tracks em port c mine real theirs f b s
        → Tracks em port c mine real theirs f b (save_ring rt f s)
          × Holds theirs f (save_ring rt f s)
    save_ring-Tracks f b s t = rw (save_ring-eq f s) (
      record {
        side = t.side;
        other = t.other;
        two = t.two;
        now = t.now;
        saved =
            λ k lo hi. ground (arith, find-insert f k (image (core s.machine)) s.ring, t.saved k);
        played = t.played;
        assumed = t.assumed;
        proven = t.proven;
        heard = t.heard;
        received = t.received;
        reached = t.reached;
      },
      ground (arith, find-insert f f (image (core s.machine)) s.ring, t.now),
    )

    -- One frame on the assumed input takes the invariant one frame on.
    pub run_frame-Tracks :
        (s : Session S) (f b e : ℕ)
        → Tracks em port c mine real theirs f b s
        → Holds theirs f s
        → f < b
        → theirs f ≡ remote_input f s
        → ((run_frame rt f (mine f) e s).0 ≡ RpResult.ok)
          × Tracks em port c mine real theirs (f + 1) b (run_frame rt f (mine f) e s).1
    unfolding run_frame
    run_frame-Tracks s f b e t h lt a = (
      laws.advances _ e,
      record {
        side = t.side;
        other = t.other;
        two = t.two;
        now =
            set_inputs s.machine s.local_port s.remote_port e (mine f) (remote_input f s) t.side
              t.other t.two
            ∙ ap (λ x. turn step port x (mine f) (remote_input f s)) t.now
            ∙ ap (turn step port (replay step port c mine theirs f) (mine f)) (sym a)
            ∙ sym (replay_next step port c mine theirs f);
        saved = λ k lo hi. ground (arith, t.saved k, h);
        played = t.played;
        assumed = λ k lo hi. ground (arith, find-insert f k (remote_input f s) s.used, t.assumed k);
        proven = t.proven;
        heard = t.heard;
        received = t.received;
        reached = omega (arith, t.reached);
      },
    )
