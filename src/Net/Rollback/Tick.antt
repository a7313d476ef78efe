-- ===== src/Net/Rollback/Tick.antt =====
-- The stages of `tick` in src/net/RollbackSession.cpp that poll the network, stall or simulate.
use retro_park.Base.{
  ℕ, ◌+◌, ◌^◌, ◌<◌, ◌≡◌, refl, sym, ap, ◌∙◌, subst, List, [], ◌∷◌, arith, if◌then◌else◌, ltb,
  lt→ltb, le→ltb,
}
use retro_park.Abi.{RpResult, InputState}
use retro_park.Net.Protocol
use retro_park.Net.Machine.{Emulation}
use retro_park.Net.Rollback.{
  Session, RbStatus, Flow, next, returns, add_u64, receive, take_input, take_checksum, drain,
  remote_input, save_ring, run_frame, stall, simulate, close_tick,
}
use retro_park.Net.Rollback.Reconcile.{Plays}
use retro_park.Net.Rollback.Tracks.{
  Tracks, Tracks-rest, save_ring-Tracks, save_ring-eq, run_frame-Tracks,
}
use retro_park.Net.Rollback.Counters.{Steady, SameCounters, close_tick-SameCounters}
use retro_park.Net.Rollback.Stages.{expected, Heard, Tracks-ext, receive-Tracks, close_tick-Tracks}

module _ {S : Type 0} where
  take_input-frame :
      (r : Protocol.Read Protocol.Input) (s : Session S) → (take_input r s).frame ≡ s.frame
  unfolding take_input
  take_input-frame (Protocol.Read.got i) s = refl
  take_input-frame _ s = refl

  take_checksum-frame :
      (r : Protocol.Read Protocol.Checksum) (s : Session S) → (take_checksum r s).frame ≡ s.frame
  unfolding take_checksum
  take_checksum-frame (Protocol.Read.got i) s = refl
  take_checksum-frame _ s = refl

  receive-frame : (bytes : List ℕ) (s : Session S) → (receive bytes s).frame ≡ s.frame
  unfolding receive
  receive-frame bytes s = ground (
    arith,
    take_input-frame (Protocol.decode_input bytes) s,
    take_checksum-frame (Protocol.decode_checksum bytes) s,
  )

module _ {S C : Type 0} (em : Emulation S C) (port : ℕ) (c : C) (mine real : ℕ → InputState) where
  open em use {rt, core, input, step, image, laws}

  -- A stage leaves the frame alone, and fails by a disconnection only.
  abbrev pub Outcome : ℕ → ℕ → Flow S → Type 0
  Outcome f b (next s) = Plays em port c mine real b s × (s.frame ≡ f)
  Outcome f b (returns s) =
      Plays em port c mine real b s × (s.frame ≡ f) × (s.status ≡ RbStatus.disconnected)

  pub drain-Outcome :
      (polls : List (RpResult × List ℕ)) (b : ℕ) (s : Session S)
      → Plays em port c mine real b s
      → Heard real polls (expected s)
      → Outcome s.frame b (drain polls s)
  unfolding drain
  drain-Outcome [] b s p h = (p, refl)
  drain-Outcome ((RpResult.ok, bytes) ∷ polls) b s (theirs, t) (honest, h) =
      let (t', e) = receive-Tracks em port c mine real theirs s.frame b bytes t honest in
      let same = receive-frame bytes s in
      let p : Plays em port c mine real b (receive bytes s) = (
        theirs,
        subst (λ f. Tracks em port c mine real theirs f b (receive bytes s)) (sym same) t',
      ) in
      subst (λ f. Outcome f b (drain polls (receive bytes s))) same
        (drain-Outcome polls b (receive bytes s) p (subst (Heard real polls) (sym e) h))
  drain-Outcome ((RpResult.not_found, bytes) ∷ polls) b s p h = (p, refl)
  drain-Outcome ((_, bytes) ∷ polls) b s (theirs, t) h = (
    (
      theirs,
      Tracks-rest em port c mine real theirs s.frame b s.frame s.rollback_count _ s.sent s.own_crc
          s.peer_crc t,
    ),
    refl,
    refl,
  )

  -- Frames assumed from the present on
  assume : (ℕ → InputState) → Session S → ℕ → InputState
  assume theirs s k = if ltb k s.frame then theirs k else remote_input k s

  -- The session once its frame is saved and run
  ran : Session S → Session S
  ran s = (run_frame rt s.frame (mine s.frame) 1 (save_ring rt s.frame s)).1

  ran-SameCounters : (s : Session S) → SameCounters s (ran s)
  unfolding ran run_frame
  ran-SameCounters s = rw (save_ring-eq em port c mine real s.frame s) (record {
    frame = refl;
    verified = refl;
    confirmed = refl;
    have_confirmed = refl;
    max_prediction = refl;
  })

  ran-Tracks :
      (b : ℕ) (s : Session S) (p : Plays em port c mine real b s)
      → s.frame < b
      → Tracks em port c mine real (assume p.0 s) (s.frame + 1) b (ran s)
        × ((run_frame rt s.frame (mine s.frame) 1 (save_ring rt s.frame s)).0 ≡ RpResult.ok)
  unfolding assume ran remote_input
  ran-Tracks b s (theirs, t) known =
      let t' =
        Tracks-ext em port c mine real theirs s.frame b (assume theirs s) t
          (λ k lt. rw (lt→ltb _ _ lt)) in
      let (t'', h) = save_ring-Tracks em port c mine real (assume theirs s) s.frame b s t' in
      let (r, u) =
        run_frame-Tracks em port c mine real (assume theirs s) (save_ring rt s.frame s) s.frame b 1
          t'' h known
          (rw (save_ring-eq em port c mine real s.frame s, le→ltb s.frame s.frame (omega arith))) in
      (u, r)

  -- Showing a frame does not move the game.
  render-Tracks :
      {theirs : ℕ → InputState} {f b : ℕ} {s : Session S} (frame : ℕ)
      → Tracks em port c mine real theirs f b s
      → Tracks em port c mine real theirs f b
          (record s { machine = rt.render s.machine; frame = frame })
  render-Tracks frame t = record {
    side = t.side;
    other = t.other;
    two = t.two;
    now = laws.renders_core _ ∙ t.now;
    saved = t.saved;
    played = t.played;
    assumed = t.assumed;
    proven = t.proven;
    heard = t.heard;
    received = t.received;
    reached = t.reached;
  }

  with_status :
      {theirs : ℕ → InputState} {f b : ℕ} {s : Session S} (status : RbStatus)
      → Tracks em port c mine real theirs f b s
      → Tracks em port c mine real theirs f b (record s { status = status })
  with_status {theirs} {f} {b} {s} status =
      Tracks-rest em port c mine real theirs f b s.frame s.rollback_count status s.sent s.own_crc
        s.peer_crc

  shown : Session S → Session S
  shown s = record (ran s) { machine = rt.render (ran s).machine; frame = add_u64 (ran s).frame 1 }

  simulate-eq :
      (s : Session S)
      → (run_frame rt s.frame (mine s.frame) 1 (save_ring rt s.frame s)).0 ≡ RpResult.ok
      → simulate rt (mine s.frame) s ≡ record (close_tick (shown s)) { status = RbStatus.ok }
  unfolding simulate shown ran run_frame
  simulate-eq s r = rw r

  simulate-Steady :
      (s : Session S)
      → (run_frame rt s.frame (mine s.frame) 1 (save_ring rt s.frame s)).0 ≡ RpResult.ok
      → Steady s (simulate rt (mine s.frame) s)
  unfolding shown
  simulate-Steady s r =
      let u = ran-SameCounters s in
      let v = close_tick-SameCounters (shown s) in
      rw (simulate-eq s r) (record {
        verified = v.verified ∙ u.verified;
        confirmed = v.confirmed ∙ u.confirmed;
        have_confirmed = v.have_confirmed ∙ u.have_confirmed;
        max_prediction = v.max_prediction ∙ u.max_prediction;
      })

  -- With no condition on the session: the frame is run, shown and counted.
  pub simulate-Counted :
      (s : Session S)
      → ((simulate rt (mine s.frame) s).frame ≡ add_u64 s.frame 1)
        × ((simulate rt (mine s.frame) s).status ≡ RbStatus.ok)
        × Steady s (simulate rt (mine s.frame) s)
  unfolding shown run_frame
  simulate-Counted s =
      let r : (run_frame rt s.frame (mine s.frame) 1 (save_ring rt s.frame s)).0 ≡ RpResult.ok =
        laws.advances _ 1 in
      (
        ap (λ x. x.frame) (simulate-eq s r)
            ∙ (close_tick-SameCounters (shown s)).frame
            ∙ ap (λ k. add_u64 k 1) (ran-SameCounters s).frame,
        ap (λ x. x.status) (simulate-eq s r),
        simulate-Steady s r,
      )

  -- Simulating a frame succeeds, and takes the session one frame on in its game.
  pub simulate-Plays :
      (b : ℕ) (s : Session S)
      → Plays em port c mine real b s
      → s.frame < b
      → s.frame + 1 < 2 ^ 64
      → Plays em port c mine real b (simulate rt (mine s.frame) s)
        × ((simulate rt (mine s.frame) s).frame ≡ s.frame + 1)
        × ((simulate rt (mine s.frame) s).status ≡ RbStatus.ok)
        × Steady s (simulate rt (mine s.frame) s)
  unfolding shown
  simulate-Plays b s p known small =
      let (u, r) = ran-Tracks b s p known in
      let t : Tracks em port c mine real (assume p.0 s) (s.frame + 1) b (close_tick (shown s)) =
        close_tick-Tracks em port c mine real (assume p.0 s) (s.frame + 1) b (render-Tracks _ u) in
      let f : (close_tick (shown s)).frame ≡ s.frame + 1 =
        omega (arith, (close_tick-SameCounters (shown s)).frame, (ran-SameCounters s).frame) in
      let shows : Plays em port c mine real b
          (record (close_tick (shown s)) { status = RbStatus.ok }) =
        (
          assume p.0 s,
          subst
              (λ k.
                Tracks em port c mine real (assume p.0 s) k b
                  (record (close_tick (shown s)) { status = RbStatus.ok }))
              (sym f) (with_status RbStatus.ok t),
        ) in
      (
        subst (Plays em port c mine real b) (sym (simulate-eq s r)) shows,
        ap (λ x. x.frame) (simulate-eq s r) ∙ f,
        ap (λ x. x.status) (simulate-eq s r),
        simulate-Steady s r,
      )

  pub stall-Plays :
      (b : ℕ) (s : Session S)
      → Plays em port c mine real b s
      → Plays em port c mine real b (stall rt s)
        × ((stall rt s).frame ≡ s.frame)
        × ((stall rt s).status ≡ RbStatus.stalled)
        × Steady s (stall rt s)
  unfolding stall
  stall-Plays b s (theirs, t) =
      let again = record s { machine = rt.render s.machine } in
      let k = close_tick-SameCounters again in
      let t' : Tracks em port c mine real theirs s.frame b (close_tick again) =
        close_tick-Tracks em port c mine real theirs s.frame b (render-Tracks s.frame t) in
      (
        (
          theirs,
          subst
              (λ k.
                Tracks em port c mine real theirs k b
                  (record (close_tick again) { status = RbStatus.stalled }))
              (sym k.frame) (with_status RbStatus.stalled t'),
        ),
        k.frame,
        refl,
        record {
          verified = k.verified;
          confirmed = k.confirmed;
          have_confirmed = k.have_confirmed;
          max_prediction = k.max_prediction;
        },
      )
