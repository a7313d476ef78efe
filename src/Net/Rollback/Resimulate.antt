-- ===== src/Net/Rollback/Resimulate.antt =====
-- The rollback of src/net/RollbackSession.cpp: going back to a saved frame and playing on from it.
use retro_park.Base.{
  ℕ, zero, suc, ◌+◌, ◌-◌, ◌≤◌, ◌<◌, ◌≡◌, refl, sym, ap, ◌∙◌, subst, some, List, [], arith,
}
use retro_park.Base.Map.{touch-eq, find_or-eq}
use retro_park.Abi.{InputState, neutral}
use retro_park.Net.Machine.{Emulation}
use retro_park.Net.Rollback.{
  Session, next, remote_input, run_frame, save_ring, resimulate, roll_back, add_u64,
}
use retro_park.Net.Rollback.Replay.{replay, replay_ext}
use retro_park.Net.Rollback.Tracks.{
  Tracks, Tracks-rest, Holds, save_ring-eq, save_ring-Tracks, run_frame-Tracks,
}

-- What a rollback leaves alone
pub record Kept {S : Type 0} (s s' : Session S) : Type 0 where
  pub frame : s'.frame ≡ s.frame
  pub verified : s'.verified ≡ s.verified
  pub remote : s'.remote ≡ s.remote
  pub confirmed : s'.confirmed ≡ s.confirmed
  pub have_confirmed : s'.have_confirmed ≡ s.have_confirmed
  pub max_prediction : s'.max_prediction ≡ s.max_prediction
  pub status : s'.status ≡ s.status

pub Kept-trans : {S : Type 0} {s t u : Session S} → Kept s t → Kept t u → Kept s u
Kept-trans k l = record {
  frame = l.frame ∙ k.frame;
  verified = l.verified ∙ k.verified;
  remote = l.remote ∙ k.remote;
  confirmed = l.confirmed ∙ k.confirmed;
  have_confirmed = l.have_confirmed ∙ k.have_confirmed;
  max_prediction = l.max_prediction ∙ k.max_prediction;
  status = l.status ∙ k.status;
}

module _ {S C : Type 0} (em : Emulation S C) (port : ℕ) (c : C)
    (mine real theirs : ℕ → InputState) where
  open em use {rt, core, input, step, image, laws}

  -- A frame of the loop, from a session that tracks the game so far
  round : ℕ → Session S → Session S
  round f s = save_ring rt (f + 1) (run_frame rt f (mine f) 0 s).1

  round-Kept : (f : ℕ) (s : Session S) → Kept s (round f s)
  unfolding round run_frame
  round-Kept f s =
      rw (save_ring-eq em port c mine real (f + 1) (run_frame rt f (mine f) 0 s).1) (record {
        frame = refl;
        verified = refl;
        remote = refl;
        confirmed = refl;
        have_confirmed = refl;
        max_prediction = refl;
        status = refl;
      })

  round-Tracks :
      (f b : ℕ) (s : Session S)
      → Tracks em port c mine real theirs f b s
      → Holds em port c mine real theirs f s
      → f < b
      → theirs f ≡ remote_input f s
      → Tracks em port c mine real theirs (f + 1) b (round f s)
        × Holds em port c mine real theirs (f + 1) (round f s)
  unfolding round
  round-Tracks f b s t h lt a =
      save_ring-Tracks em port c mine real theirs (f + 1) b _
        (run_frame-Tracks em port c mine real theirs s f b 0 t h lt a).1

  resimulate_step :
      (n f b : ℕ) (s : Session S)
      → Tracks em port c mine real theirs f b s
      → f < b
      → resimulate rt (suc n) f s ≡ resimulate rt n (f + 1) (round f s)
  unfolding resimulate round run_frame
  resimulate_step n f b s t lt = rw (
    find_or-eq f neutral (mine f) s.local (t.played f t.reached lt),
    touch-eq f neutral (mine f) s.local (t.played f t.reached lt),
    laws.advances,
  )

  remote_input-Kept : (k : ℕ) {s s' : Session S} → Kept s s' → remote_input k s' ≡ remote_input k s
  unfolding remote_input
  remote_input-Kept k u = rw (u.remote, u.confirmed)

  -- The loop succeeds, and leaves a session that tracks the game to its end.
  pub resimulate-Tracks :
      (n f b : ℕ) (s : Session S)
      → Tracks em port c mine real theirs f b s
      → Holds em port c mine real theirs f s
      → f + n < b
      → ((k : ℕ) → f ≤ k → theirs k ≡ remote_input k s)
      → (s' : Session S) × (resimulate rt n f s ≡ next s')
        × Tracks em port c mine real theirs (f + n) b s'
        × Kept s s'
  unfolding resimulate
  resimulate-Tracks zero f b s t h lt a =
      let e : f ≡ f + 0 = omega arith in
      (
        s,
        refl,
        subst (λ k. Tracks em port c mine real theirs k b s) e t,
        record {
          frame = refl;
          verified = refl;
          remote = refl;
          confirmed = refl;
          have_confirmed = refl;
          max_prediction = refl;
          status = refl;
        },
      )
  resimulate-Tracks (suc n) f b s t h lt a =
      let u = round-Kept f s in
      let (t', h') = round-Tracks f b s t h (omega arith) (a f (omega arith)) in
      let (s', e, t'', u') =
        resimulate-Tracks n (f + 1) b (round f s) t' h' (omega arith)
          (λ k lo. a k (omega arith) ∙ sym (remote_input-Kept k u)) in
      let k : f + 1 + n ≡ f + suc n = omega arith in
      (
        s',
        resimulate_step n f b s t (omega arith) ∙ e,
        subst (λ j. Tracks em port c mine real theirs j b s') k t'',
        Kept-trans u u',
      )

module _ {S C : Type 0} (em : Emulation S C) (port : ℕ) (c : C)
    (mine real theirs theirs' : ℕ → InputState) (s : Session S) (b g : ℕ)
    (t : Tracks em port c mine real theirs s.frame b s) (known : s.frame < b)
    (from : s.verified ≤ g) (to : g < s.frame) (same : (k : ℕ) → k < g → theirs k ≡ theirs' k) where
  open em use {rt, core, input, step, image, laws}

  -- The state that the ring has for frame `g`
  abbrev saved_state : List ℕ
  saved_state = image (replay step port c mine theirs g)

  loaded : Session S
  loaded = record s { machine = (rt.load_state s.machine saved_state).1 }

  same_state :
      (k : ℕ) → k ≤ g → replay step port c mine theirs k ≡ replay step port c mine theirs' k
  same_state k hk =
      replay_ext step port c mine mine theirs theirs' k (λ j lt. refl)
        (λ j lt. same j (omega arith))

  loaded-Tracks :
      Tracks em port c mine real theirs' g b loaded × Holds em port c mine real theirs' g loaded
  unfolding loaded
  loaded-Tracks = (
    record {
      side = t.side;
      other = t.other;
      two = t.two;
      now = laws.loads_core s.machine _ ∙ same_state g (omega arith);
      saved = λ k lo hi.
          t.saved k lo (omega arith) ∙ ap (λ x. some (image x)) (same_state k (omega arith));
      played = t.played;
      assumed = λ k lo hi. t.assumed k lo (omega arith) ∙ ap some (same k hi);
      proven = λ k lt. sym (same k (omega arith)) ∙ t.proven k lt;
      heard = t.heard;
      received = t.received;
      reached = from;
    },
    t.saved g from to ∙ ap (λ x. some (image x)) (same_state g (omega arith)),
  )

  -- A rollback to `g` succeeds, and leaves a session that tracks the game up to the present on the
  -- inputs known now.
  pub roll_back-Tracks :
      ((k : ℕ) → g ≤ k → theirs' k ≡ remote_input k s)
      → (s' : Session S) × (roll_back rt g s ≡ next s')
        × Tracks em port c mine real theirs' s.frame b s'
        × Kept s s'
  unfolding roll_back loaded remote_input
  roll_back-Tracks a =
      let (t', h') = loaded-Tracks in
      let e : g + (s.frame - g) ≡ s.frame = omega arith in
      let (s', r, t'', u) =
        resimulate-Tracks em port c mine real theirs' (s.frame - g) g b loaded t' h' (omega arith)
          a in
      (
        record s' { rollback_count = add_u64 s'.rollback_count 1 },
        rw (
          find_or-eq g [] saved_state s.ring (t.saved g from to),
          touch-eq g [] saved_state s.ring (t.saved g from to),
          laws.loads,
          r,
        ),
        Tracks-rest em port c mine real theirs' s.frame b s'.frame _ s'.status s'.sent s'.own_crc
            s'.peer_crc (subst (λ k. Tracks em port c mine real theirs' k b s') e t''),
        record {
          frame = u.frame;
          verified = u.verified;
          remote = u.remote;
          confirmed = u.confirmed;
          have_confirmed = u.have_confirmed;
          max_prediction = u.max_prediction;
          status = u.status;
        },
      )
