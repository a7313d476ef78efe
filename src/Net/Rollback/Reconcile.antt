-- ===== src/Net/Rollback/Reconcile.antt =====
-- The third stage of `tick` in src/net/RollbackSession.cpp: the real inputs that have come in are held
-- against the ones that were used, and the session goes back to the first that was wrong.
use retro_park.Base.{
  ℕ, ◌+◌, ◌-◌, min, ◌^◌, ◌≤◌, ◌<◌, ◌≡◌, refl, sym, ◌∙◌, subst, Bool, true, false, inl, inr, arith,
  Bool-cases, if◌then◌else◌, ◌==◌, ltb, leb, lt→ltb, le→ltb, ◌&&◌,
}
use native.Mathlib.Decide.{dec_lt}
use retro_park.Base.Map.{find_or-eq}
use retro_park.Abi.{InputState, neutral}
use retro_park.Net.Machine.{Emulation}
use retro_park.Net.Rollback.{Session, Flow, next, remote_input, roll_back, reconcile}
use retro_park.Net.Rollback.Predict.{
  none_mispredicted, mispredicted, first_mispredicted, first_mispredicted-Found, not_mispredicted,
}
use retro_park.Net.Rollback.Tracks.{Tracks}
use retro_park.Net.Rollback.Resimulate.{Kept, roll_back-Tracks}
use retro_park.Net.Rollback.Stages.{Tracks-verified}

module _ {S C : Type 0} (em : Emulation S C) (port : ℕ) (c : C) (mine real : ℕ → InputState) where
  open em use {rt, core, input, step, image, laws}

  -- A session at the frame that it shows, with own inputs below `b`, and what it assumed so far.
  abbrev pub Plays : ℕ → Session S → Type 0
  Plays b s = (theirs : ℕ → InputState) × Tracks em port c mine real theirs s.frame b s

  -- The last frame that can be verified now
  abbrev pub horizon : Session S → ℕ
  horizon s = if ltb s.confirmed (s.frame - 1) then s.confirmed else s.frame - 1

  abbrev pub due : Session S → Bool
  due s = s.have_confirmed && ltb 0 s.frame && leb s.verified (horizon s)

  -- What `verified_` becomes
  abbrev pub next_verified : Session S → ℕ
  next_verified s = if due s then horizon s + 1 else s.verified

  pub next_verified-le :
      (s : Session S) → s.have_confirmed ≡ true → min (s.confirmed + 1) s.frame ≤ next_verified s
  next_verified-le s have = ground arith

  abbrev pub Reconciled : ℕ → Session S → Flow S → Type 0
  Reconciled b s m =
      (s' : Session S) × (m ≡ next s')
      × Plays b s'
      × Kept s (record s' { verified = s.verified })
      × (s'.verified ≡ next_verified s)

  module _ (s : Session S) (b : ℕ) (theirs : ℕ → InputState)
      (t : Tracks em port c mine real theirs s.frame b s) (known : s.frame < b)
      (small : s.frame < 2 ^ 64) (is_due : due s ≡ true) where
    due_parts :
        (s.have_confirmed ≡ true)
        × (0 < s.frame)
        × (s.verified ≤ horizon s)
        × (horizon s ≤ s.confirmed)
        × (horizon s < s.frame)
    due_parts = ground arith

    -- A frame that the search passed over was assumed as it was played.
    right :
        (k : ℕ)
        → s.verified ≤ k
        → k ≤ horizon s
        → mispredicted s.remote s.used k ≡ false
        → theirs k ≡ real k
    right k lo hi good =
        let (have, started, some_left, confirmed, played) = due_parts in
        sym (find_or-eq k neutral (theirs k) s.used (t.assumed k lo (omega arith)))
        ∙ not_mispredicted s.remote s.used k good (t.received have k lo (omega arith))

    reconcile_right :
        ((k : ℕ) → s.verified ≤ k → k ≤ horizon s → mispredicted s.remote s.used k ≡ false)
        → Plays b (record s { verified = horizon s + 1 })
    reconcile_right good =
        let (have, started, some_left, confirmed, played) = due_parts in
        (
          theirs,
          Tracks-verified em port c mine real theirs s.frame b (horizon s + 1) t (omega arith)
              (omega arith)
              λ k lt. elim (dec_lt k s.verified) [
                | yes old ↦ t.proven k old
                | no new ↦ right k (omega arith) (omega arith) (good k (omega arith) (omega arith))
              ],
        )

    -- What is assumed of the other side after a rollback to `g`
    corrected : ℕ → ℕ → InputState
    corrected g k = if ltb k g then theirs k else remote_input k s

    remote_input-real : (k : ℕ) → s.verified ≤ k → k ≤ horizon s → remote_input k s ≡ real k
    unfolding remote_input
    remote_input-real k lo hi =
        let (have, started, some_left, confirmed, played) = due_parts in
        rw (t.received have k lo (omega arith), remote_input)

    corrected-real :
        (g : ℕ)
        → s.verified ≤ g
        → ((k : ℕ) → s.verified ≤ k → k < g → mispredicted s.remote s.used k ≡ false)
        → g ≤ horizon s
        → (k : ℕ) → k < horizon s + 1
        → corrected g k ≡ real k
    unfolding corrected
    corrected-real g from good to k lt = elim (dec_lt k g) [
      | yes before ↦ rw (lt→ltb _ _ before) (elim (dec_lt k s.verified) [
        | yes old ↦ t.proven k old
        | no new ↦ right k (omega arith) (omega arith) (good k (omega arith) before)
      ])
      | no after ↦ rw (le→ltb k g (omega arith)) (remote_input-real k (omega arith) (omega arith))
    ]

    reconcile_wrong :
        (g : ℕ)
        → s.verified ≤ g
        → g ≤ horizon s
        → ((k : ℕ) → s.verified ≤ k → k < g → mispredicted s.remote s.used k ≡ false)
        → (s' : Session S) × (roll_back rt g s ≡ next s')
          × Plays b (record s' { verified = horizon s + 1 })
          × Kept s s'
    unfolding corrected
    reconcile_wrong g from to good =
        let (have, started, some_left, confirmed, played) = due_parts in
        let (s', e, t', u) =
          roll_back-Tracks em port c mine real theirs (corrected g) s b g t known from (omega arith)
            (λ k lt. rw (lt→ltb _ _ lt)) (λ k lo. rw (le→ltb k g lo)) in
        let t'' : Tracks em port c mine real (corrected g) s'.frame b s' =
          subst (λ f. Tracks em port c mine real (corrected g) f b s') (sym u.frame) t' in
        (
          s',
          e,
          (
            corrected g,
            Tracks-verified em port c mine real (corrected g) s'.frame b (horizon s + 1) t''
                (omega (arith, u.verified)) (omega (arith, u.frame))
                (λ k lt. corrected-real g from good to k lt),
          ),
          u,
        )

  -- Reconciling succeeds, keeps the session on its game, and verifies all that can be.
  pub reconcile-Reconciled :
      (s : Session S) (b : ℕ)
      → Plays b s
      → s.frame < b
      → s.frame < 2 ^ 64
      → Reconciled b s (reconcile rt s)
  unfolding reconcile
  reconcile-Reconciled s b (theirs, t) known small = elim (Bool-cases (due s)) [
    | inr early ↦ rw early (s, refl, (theirs, t), unchanged, refl)
    | inl now ↦
        rw now (elim (first_mispredicted-Found s.remote s.used s.verified (horizon s) below) [
          | inl (e, good) ↦ rw e (
            record s { verified = horizon s + 1 },
            refl,
            reconcile_right s b theirs t known small now good,
            unchanged,
            refl,
          )
          | inr (from, to, bad, good) ↦
              let g = first_mispredicted s.remote s.used s.verified (horizon s) in
              let (s', e, p, u) = reconcile_wrong s b theirs t known small now g from to good in
              let some_wrong : (g == none_mispredicted) ≡ false = ground arith in
              rw (some_wrong, e)
                (
                  record s' { verified = horizon s + 1 },
                  refl,
                  p,
                  record {
                    frame = u.frame;
                    verified = refl;
                    remote = u.remote;
                    confirmed = u.confirmed;
                    have_confirmed = u.have_confirmed;
                    max_prediction = u.max_prediction;
                    status = u.status;
                  },
                  refl,
                )
        ])
  ]
    where
      below : horizon s < none_mispredicted
      below = ground arith

      unchanged : Kept s s
      unchanged = record {
        frame = refl;
        verified = refl;
        remote = refl;
        confirmed = refl;
        have_confirmed = refl;
        max_prediction = refl;
        status = refl;
      }
