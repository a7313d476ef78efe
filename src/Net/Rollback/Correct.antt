-- ===== src/Net/Rollback/Correct.antt =====
-- `RollbackSession::tick` of src/net/RollbackSession.cpp as a whole: whatever the network does, and
-- however often the session rolls back, it stays on the game that it tracks.
use retro_park.Base.{
  ℕ, ◌+◌, min, ◌^◌, ◌≤◌, ◌<◌, ◌≡◌, ◌≢◌, refl, sym, ◌∙◌, subst, true, false, List, ◌⊎◌, inl, inr,
  arith, Bool-cases, if◌then◌else◌, leb,
}
use native.Mathlib.Decide.{dec_lt}
use retro_park.Base.Map.{insert, find-insert}
use retro_park.Abi.{RpResult, InputState}
use retro_park.Net.Machine.{Emulation}
use retro_park.Net.Rollback.{
  Session, RbStatus, Wire, Flow, next, returns, ◌>>=◌, finish, drain, send_input, reconcile, ahead,
  stall, simulate, tick, if_disconnected_cases,
}
use retro_park.Net.Rollback.Reconcile.{Plays, next_verified-le, reconcile-Reconciled}
use retro_park.Net.Rollback.Tracks.{Tracks}
use retro_park.Net.Rollback.Tick.{Outcome, drain-Outcome, simulate-Plays, stall-Plays}
use retro_park.Net.Rollback.Stages.{expected, Heard}

module _ {S C : Type 0} (em : Emulation S C) (port : ℕ) (c : C) (mine real : ℕ → InputState) where
  open em use {rt, core, input, step, image, laws}

  Tracks-below :
      {theirs : ℕ → InputState} {f b b' : ℕ} {s : Session S}
      → b' ≤ b
      → Tracks em port c mine real theirs f b s
      → Tracks em port c mine real theirs f b' s
  Tracks-below h t = record {
    side = t.side;
    other = t.other;
    two = t.two;
    now = t.now;
    saved = t.saved;
    played = λ k lo hi. t.played k lo (omega arith);
    assumed = t.assumed;
    proven = t.proven;
    heard = t.heard;
    received = t.received;
    reached = t.reached;
  }

  -- How a tick can end, started at frame `f`
  abbrev pub Ended : ℕ → Session S → Type 0
  Ended f s =
      ((s.status ≡ RbStatus.ok) × (s.frame ≡ f + 1))
      ⊎ (((s.status ≡ RbStatus.stalled) ⊎ (s.status ≡ RbStatus.disconnected)) × (s.frame ≡ f))

  abbrev Bounds : ℕ → Session S → Type 0
  Bounds f s =
      (s.status ≢ RbStatus.disconnected
        → s.have_confirmed ≡ true
        → min (s.confirmed + 1) f ≤ s.verified)
      × (s.status ≡ RbStatus.ok
          → s.have_confirmed ≡ true
          → s.frame ≤ s.confirmed + 1 + s.max_prediction)
      × (s.status ≡ RbStatus.stalled
          → 0 < s.max_prediction
          → s.confirmed + 1 + s.max_prediction ≤ s.frame)

  -- How far a tick that goes through has verified, and how far it runs ahead
  abbrev pub Paced : ℕ → Session S → Type 0
  Paced f s =
      (s.status ≡ RbStatus.disconnected)
      ⊎ ((s.status ≡ RbStatus.ok)
          × (min (expected s) f ≤ s.verified)
          × ((s.have_confirmed ≡ false) ⊎ (s.frame ≤ s.confirmed + 1 + s.max_prediction)))
      ⊎ ((s.status ≡ RbStatus.stalled)
          × (min (expected s) f ≤ s.verified)
          × ((s.max_prediction ≡ 0) ⊎ (s.confirmed + 1 + s.max_prediction ≤ s.frame)))

  verified_so_far :
      (f : ℕ) (s : Session S)
      → s.status ≢ RbStatus.disconnected
      → Bounds f s
      → min (expected s) f ≤ s.verified
  verified_so_far f s ne b = elim (Bool-cases s.have_confirmed) [
    | inl have ↦ rw have (b.0 ne have)
    | inr none_yet ↦ rw none_yet (omega arith)
  ]

  Bounds-Paced : (f : ℕ) (s : Session S) → Ended f s → Bounds f s → Paced f s
  Bounds-Paced f s (inl (is_ok, e)) b = inr (
      inl (
        is_ok,
        verified_so_far f s (λ d. cc) b,
        elim (Bool-cases s.have_confirmed) [
          | inl have ↦ inr (b.1 is_ok have)
          | inr none_yet ↦ inl none_yet
        ],
      ))
  Bounds-Paced f s (inr (inr cut, e)) b = inl cut
  Bounds-Paced f s (inr (inl stalls, e)) b = inr (
      inr (
        stalls,
        verified_so_far f s (λ d. cc) b,
        elim (dec_lt 0 s.max_prediction) [
          | yes pos ↦ inr (b.2 stalls pos)
          | no none_allowed ↦ inl (omega arith)
        ],
      ))

  abbrev Final : ℕ → Session S → Type 0
  Final f s = Plays em port c mine real s.frame s × Ended f s × Bounds f s

  settle :
      (f b : ℕ) (s : Session S)
      → Plays em port c mine real b s
      → s.frame ≤ b
      → Ended f s
      → Bounds f s
      → Final f s
  settle f b s (theirs, t) h e paced = ((theirs, Tracks-below h t), e, paced)

  cut_off : (f : ℕ) (s : Session S) → s.status ≡ RbStatus.disconnected → Bounds f s
  cut_off f s e = (λ ne have. absurd (ne e), λ o have. cc, λ o pos. cc)

  -- The last stage: stall or simulate
  abbrev last_stage : InputState → Session S → Flow S
  last_stage local_now s =
      if leb s.max_prediction (ahead rt s)
      then returns (stall rt s)
      else next (simulate rt local_now s)

  ahead_far :
      (s : Session S)
      → leb s.max_prediction (ahead rt s) ≡ true
      → 0 < s.max_prediction
      → s.confirmed + 1 + s.max_prediction ≤ s.frame
  unfolding ahead
  ahead_far s h pos = ground arith

  ahead_near :
      (s : Session S)
      → leb s.max_prediction (ahead rt s) ≡ false
      → s.have_confirmed ≡ true
      → s.frame + 1 ≤ s.confirmed + 1 + s.max_prediction
  unfolding ahead
  ahead_near s h have = ground arith

  last_stage-Final :
      (f : ℕ) (s : Session S)
      → Plays em port c mine real (f + 1) s
      → s.frame ≡ f
      → f + 1 < 2 ^ 64
      → (s.have_confirmed ≡ true → min (s.confirmed + 1) f ≤ s.verified)
      → Final f (finish (last_stage (mine f) s))
  last_stage-Final f s p e small caught = elim (Bool-cases (leb s.max_prediction (ahead rt s))) [
    | inl too_far ↦
        let (p', f', status, u) = stall-Plays em port c mine real (f + 1) s p in
        rw too_far (
          settle f (f + 1) (stall rt s) p' (omega arith) (inr (inl status, f' ∙ e)) (
            λ ne have. omega (arith, u.verified, u.confirmed, caught (sym u.have_confirmed ∙ have)),
            λ o have. cc,
            λ o pos. omega (arith, u.confirmed, u.max_prediction, ahead_far s too_far, f'),
          ))
    | inr near ↦
        let (p', f', status, u) =
          simulate-Plays em port c mine real (f + 1) s p (omega arith) (omega arith) in
        rw (near, ← e)
          (settle s.frame (f + 1) (simulate rt (mine s.frame) s) p' (omega arith) (inl (status, f'))
            (
              λ ne have.
                  omega (arith, u.verified, u.confirmed, caught (sym u.have_confirmed ∙ have)),
              λ o have. omega (
                arith,
                u.confirmed,
                u.max_prediction,
                f',
                ahead_near s near (sym u.have_confirmed ∙ have),
              ),
              λ o pos. cc,
            ))
  ]

  later_stages-Final :
      (polls : List (RpResult × List ℕ)) (f : ℕ) (s : Session S)
      → Plays em port c mine real (f + 1) s
      → s.frame ≡ f
      → f + 1 < 2 ^ 64
      → Heard real polls (expected s)
      → Final f (finish (drain polls s >>= reconcile rt >>= last_stage (mine f)))
  later_stages-Final polls f s p e small h = go (drain polls s) (
      subst (λ k. Outcome em port c mine real k (f + 1) (drain polls s)) e
        (drain-Outcome em port c mine real polls (f + 1) s p h))
    where
      go :
          (m : Flow S)
          → Outcome em port c mine real f (f + 1) m
          → Final f (finish (m >>= reconcile rt >>= last_stage (mine f)))
      go (returns s') (p', e', status) =
          settle f (f + 1) s' p' (omega arith) (inr (inr status, e')) (cut_off f s' status)
      go (next s') (p', e') =
          let (s'', r, p'', u, v) =
            reconcile-Reconciled em port c mine real s' (f + 1) p' (omega arith) (omega arith) in
          rw r (
            last_stage-Final f s'' p'' (u.frame ∙ e') small (λ have. omega (
              arith,
              v,
              u.confirmed,
              e',
              next_verified-le em port c mine real s' (sym u.have_confirmed ∙ have),
            )))

  sent_input : InputState → Session S → Session S
  sent_input local_now s = record s { local = insert s.frame local_now s.local }

  sent_input-Plays :
      (s : Session S) (status : RbStatus) (sent : List (List ℕ))
      → Plays em port c mine real s.frame s
      → Plays em port c mine real
          (s.frame + 1)
          (record (sent_input (mine s.frame) s) { status = status; sent = sent })
  unfolding sent_input
  sent_input-Plays s status sent (theirs, t) = (
    theirs,
    record {
      side = t.side;
      other = t.other;
      two = t.two;
      now = t.now;
      saved = t.saved;
      played =
          λ k lo hi. ground (arith, find-insert s.frame k (mine s.frame) s.local, t.played k lo);
      assumed = t.assumed;
      proven = t.proven;
      heard = t.heard;
      received = t.received;
      reached = t.reached;
    },
  )

  sent_stages-Final :
      (r : RpResult) (polls : List (RpResult × List ℕ)) (s : Session S)
      → Plays em port c mine real s.frame s
      → s.frame + 1 < 2 ^ 64
      → Heard real polls (expected s)
      → Final s.frame (
          finish (
            send_input rt (mine s.frame) r s
            >>= drain polls
            >>= reconcile rt
            >>= last_stage (mine s.frame)))
  unfolding send_input sent_input
  sent_stages-Final RpResult.ok polls s p small h =
      later_stages-Final polls s.frame _ (sent_input-Plays s s.status _ p) refl small h
  sent_stages-Final _ polls s p small h =
      let gone = record (sent_input (mine s.frame) s) {
        status = RbStatus.disconnected;
        sent = s.sent;
      } in
      settle s.frame (s.frame + 1) gone (sent_input-Plays s RbStatus.disconnected s.sent p)
        (omega arith) (inr (inr refl, refl)) (cut_off s.frame gone refl)

  tick-Final :
      (local_now : InputState) (w : Wire) (s : Session S)
      → Plays em port c mine real s.frame s
      → s.frame + 1 < 2 ^ 64
      → mine s.frame ≡ local_now
      → Heard real w.polls (expected s)
      → Final s.frame (tick rt local_now w s)
  unfolding tick send_input
  tick-Final local_now w s p small e h =
      subst (λ i. Final s.frame (tick rt i w s)) e
        (if_disconnected_cases (Final s.frame) s.status s _
          (λ d. (p, inr (inr d, refl), cut_off s.frame s d))
          (sent_stages-Final w.send w.polls s p small h))

  pub tick-Tracks :
      (local_now : InputState) (w : Wire) (s : Session S)
      → Plays em port c mine real s.frame s
      → s.frame + 1 < 2 ^ 64
      → mine s.frame ≡ local_now
      → Heard real w.polls (expected s)
      → Plays em port c mine real (tick rt local_now w s).frame (tick rt local_now w s)
        × Ended s.frame (tick rt local_now w s)
  tick-Tracks local_now w s p small e h =
      let (p', ended, paced) = tick-Final local_now w s p small e h in (p', ended)

  -- Under the same conditions a tick that is not cut off has verified every earlier frame whose real
  -- input is in; one that returns `Ok` after an input came in is at most `max_prediction_` frames past
  -- the next input it waits for, and one that stalls is at least as far.
  pub tick-Paced :
      (local_now : InputState) (w : Wire) (s : Session S)
      → Plays em port c mine real s.frame s
      → s.frame + 1 < 2 ^ 64
      → mine s.frame ≡ local_now
      → Heard real w.polls (expected s)
      → Paced s.frame (tick rt local_now w s)
  tick-Paced local_now w s p small e h =
      let (p', ended, paced) = tick-Final local_now w s p small e h in
      Bounds-Paced s.frame (tick rt local_now w s) ended paced
