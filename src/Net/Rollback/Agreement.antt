-- ===== src/Net/Rollback/Agreement.antt =====
-- Two sides of one rollback game (src/net/RollbackSession.cpp), each through any ticks of its own.
use retro_park.Base.{
  ℕ, ◌+◌, ◌^◌, ◌≤◌, ◌<◌, ◌≡◌, refl, sym, ap, ◌∙◌, some, List, [], ◌∷◌, arith, length,
}
use retro_park.Base.Map.{find}
use retro_park.Abi.{InputState}
use retro_park.Net.Machine.{Machine, Emulation}
use retro_park.Net.Rollback.{Session, Wire, tick}
use retro_park.Net.Rollback.Replay.{replay, replay_ext, replay_mirror}
use retro_park.Net.Rollback.Reconcile.{Plays}
use retro_park.Net.Rollback.Stages.{expected, Heard}
use retro_park.Net.Rollback.Correct.{tick-Tracks, Ended}

-- The frames of a frontend: what its pad says, and what the network does meanwhile
unfoldable pub run : {S : Type 0} → Machine S → List (InputState × Wire) → Session S → Session S
run rt [] s = s
run rt ((local_now, w) ∷ ticks) s = run rt ticks (tick rt local_now w s)

module _ {S C : Type 0} (em : Emulation S C) where
  open em use {rt, core, step, image}

  -- Each tick plays `mine`, also where it repeats a frame that stalled, and hears `real`.
  abbrev pub IsFair :
      (ℕ → InputState) → (ℕ → InputState) → List (InputState × Wire) → Session S → Type 0
  IsFair mine real [] s = Unit {0}
  IsFair mine real ((local_now, w) ∷ ticks) s =
      (mine s.frame ≡ local_now)
      × Heard real w.polls (expected s)
      × IsFair mine real ticks (tick rt local_now w s)

  Ended-le :
      (port : ℕ) (c : C) (mine real : ℕ → InputState) (f : ℕ) (s : Session S)
      → Ended em port c mine real f s
      → s.frame ≤ f + 1
  Ended-le port c mine real f s e = ground arith

  -- A session stays on its game through any number of ticks.
  pub run-Plays :
      (port : ℕ) (c : C) (mine real : ℕ → InputState) (ticks : List (InputState × Wire))
      (s : Session S)
      → Plays em port c mine real s.frame s
      → s.frame + length ticks < 2 ^ 64
      → IsFair mine real ticks s
      → Plays em port c mine real (run rt ticks s).frame (run rt ticks s)
  unfolding run
  run-Plays port c mine real [] s p small h = p
  run-Plays port c mine real ((local_now, w) ∷ ticks) s p small (own, heard, h) =
      let (p', e) = tick-Tracks em port c mine real local_now w s p (omega arith) own heard in
      run-Plays port c mine real ticks (tick rt local_now w s) p'
        (omega (arith, Ended-le port c mine real s.frame (tick rt local_now w s) e)) h

  -- What a session verified is the game as both sides played it.
  pub verified_state :
      (port : ℕ) (c : C) (mine real : ℕ → InputState) (b : ℕ) (s : Session S)
      → Plays em port c mine real b s
      → s.verified < s.frame
      → find s.verified s.ring ≡ some (image (replay step port c mine real s.verified))
  verified_state port c mine real b s (theirs, t) h =
      t.saved s.verified (omega arith) h
      ∙ ap (λ x. some (image x))
          (replay_ext step port c mine mine theirs real s.verified (λ k lt. refl) t.proven)

  module _ (c : C) (host join : ℕ → InputState) (h j : Session S)
      (host_ticks join_ticks : List (InputState × Wire))
      (host_plays : Plays em 0 c host join h.frame h)
      (join_plays : Plays em 1 c join host j.frame j)
      (host_small : h.frame + length host_ticks < 2 ^ 64)
      (join_small : j.frame + length join_ticks < 2 ^ 64)
      (host_fair : IsFair host join host_ticks h) (join_fair : IsFair join host join_ticks j) where
    -- Two sides that start one game, play on through any ticks of their own and have verified the same
    -- number of frames, both short of the frame shown, hold one and the same saved state there. Each
    -- hears of the other side what that side plays, in order and without gaps, and gives the same local
    -- input again after a stall. The frame counters do not overflow.
    pub sides_agree :
        (run rt host_ticks h).verified ≡ (run rt join_ticks j).verified
        → (run rt host_ticks h).verified < (run rt host_ticks h).frame
        → (run rt join_ticks j).verified < (run rt join_ticks j).frame
        → find (run rt host_ticks h).verified (run rt host_ticks h).ring
          ≡ find (run rt join_ticks j).verified (run rt join_ticks j).ring
    sides_agree same host_behind join_behind =
        verified_state 0 c host join _ (run rt host_ticks h)
          (run-Plays 0 c host join host_ticks h host_plays host_small host_fair) host_behind
        ∙ ap (λ x. some (image x)) (replay_mirror step c host join (run rt host_ticks h).verified)
        ∙ ap (λ v. some (image (replay step 1 c join host v))) same
        ∙ sym (
            verified_state 1 c join host _ (run rt join_ticks j)
              (run-Plays 1 c join host join_ticks j join_plays join_small join_fair) join_behind)
