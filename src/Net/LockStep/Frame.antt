-- ===== src/Net/LockStep/Frame.antt =====
-- A frame of the lockstep session of src/net/NetSession.cpp, once both inputs for it are in.
use retro_park.Base.{
  ◌≡◌, ◌≢◌, refl, sym, ap, ◌∙◌, subst, ℕ, zero, suc, ◌+◌, ◌-◌, ◌%◌, ◌^◌, ◌≤◌, ◌<◌, true, false, not,
  ◌&&◌, none, some, List, [], ◌∷◌, ltb, leb, le→ltb, ◌==◌, if◌then◌else◌, arith, Option-cases,
  Bool-cases, inl, inr,
}
use native.Mathlib.Decide.{dec_lt}
use retro_park.Base.Map.{Map, entries, find, find_or, prune_below, find-prune_below}
use retro_park.Abi.{RpResult, is_ok, InputState, neutral}
use retro_park.Net.Machine.{Emulation}
use retro_park.Net.Rollback.{add_u64, checksum_every}
use retro_park.Net.Rollback.Replay.{replay, replay_next, turn}
use retro_park.Net.LockStep.{
  NetSession, NetStatus, compare_crcs, prune, play, check_frame, advance_frame,
}
use retro_park.Net.LockStep.Follow.{
  Goes, goes, stops, Goes-bind, if-Goes, option-Goes, is_cut, Follows, FollowsTo, InStep,
}

prune_below-some :
    {V : Type 0} (lo k : ℕ) (v : V) (m : Map V)
    → find k (prune_below lo m) ≡ some v
    → find k m ≡ some v
prune_below-some lo k v m e = elim (Bool-cases (ltb k lo)) [
  | inl gone ↦
      let cut : none ≡ some v =
        (let g : (if ltb k lo then none else find k m) ≡ none = rw gone refl in
          sym g ∙ sym (find-prune_below lo k m) ∙ e) in
      cc cut
  | inr stays ↦
      (let g : (if ltb k lo then none else find k m) ≡ find k m = rw stays refl in
        sym g ∙ sym (find-prune_below lo k m) ∙ e)
]

module _ {S C : Type 0} (em : Emulation S C) (present : S → S)
    (presents : (s : S)
      → em.core (present s) ≡ em.step (em.core s) (em.input s 0) (em.input s 1)) where
  -- The two inputs reach their ports.
  pads :
      (q : ℕ) (m : S) (lin rin : InputState)
      → q ≤ 1
      → em.core (present (em.rt.set_input (em.rt.set_input m q lin) (1 - q) rin))
        ≡ turn em.step q (em.core m) lin rin
  pads zero m lin rin h =
      let m1 = em.rt.set_input m 0 lin in
      let m2 = em.rt.set_input m1 1 rin in
      let same : em.core m2 ≡ em.core m = em.laws.sets_core m1 1 rin ∙ em.laws.sets_core m 0 lin in
      let first : em.input m2 0 ≡ lin =
        em.laws.sets_input m1 1 0 rin (omega arith) (omega arith)
        ∙ em.laws.sets_input m 0 0 lin (omega arith) (omega arith) in
      let second : em.input m2 1 ≡ rin =
        em.laws.sets_input m1 1 1 rin (omega arith) (omega arith) in
      presents m2 ∙ cc (same, first, second)
  pads (suc zero) m lin rin h =
      let m1 = em.rt.set_input m 1 lin in
      let m2 = em.rt.set_input m1 0 rin in
      let same : em.core m2 ≡ em.core m = em.laws.sets_core m1 0 rin ∙ em.laws.sets_core m 1 lin in
      let first : em.input m2 0 ≡ rin = em.laws.sets_input m1 0 0 rin (omega arith) (omega arith) in
      let second : em.input m2 1 ≡ lin =
        em.laws.sets_input m1 0 1 rin (omega arith) (omega arith)
        ∙ em.laws.sets_input m 1 1 lin (omega arith) (omega arith) in
      presents m2 ∙ cc (same, first, second)
  pads (suc (suc q)) m lin rin h = absurd (omega arith)

  module _ (port : ℕ) (c : C) (mine theirs : ℕ → InputState) where
    -- The frame has been played, and is not counted yet.
    abbrev Played : ℕ → NetSession S → Type 0
    Played f s =
        Follows em port c mine theirs s.machine s.local_port s.remote_port s.delay (f + 1)
          (f + 1 + s.delay) s.local_pending s.remote_pending
        × (s.frame ≡ f)

    abbrev pub Cut : NetSession S → Type 0
    Cut s = is_cut s.status ≡ true

    -- What a map gives for a frame whose input it has, or that is too early for one
    input_at :
        (f : ℕ → InputState) (k : ℕ) (m : Map InputState)
        → ((v : InputState) → find k m ≡ some v → f k ≡ v)
        → (find k m ≡ none → f k ≡ neutral)
        → find_or k neutral m ≡ f k
    unfolding find_or
    input_at f k m there missing = elim (Option-cases (find k m)) [
      | inl e ↦ rw (e, find_or) (sym (missing e))
      | inr (v, e) ↦ rw (e, find_or) (sym (there v e))
    ]

    play-Played :
        (s : NetSession S)
        → FollowsTo em port c mine theirs (s.frame + s.delay + 1) s
        → (s.delay ≤ s.frame → find s.frame s.remote_pending ≢ none)
        → Played s.frame (play em.rt present s)
    unfolding play
    play-Played s i arrived =
        let f = s.frame in
        let lin = find_or f neutral s.local_pending in
        let rin = find_or f neutral s.remote_pending in
        let own : lin ≡ mine f = input_at mine f s.local_pending (i.own f) (λ gone.
          elim (dec_lt f s.delay) [
            | yes early ↦ i.early_mine f early
            | no late ↦
                let here : find f s.local_pending ≡ some (mine f) =
                  i.kept f (omega arith) (omega arith) (omega arith) in
                cc (gone, here)
          ]) in
        let his : rin ≡ theirs f = input_at theirs f s.remote_pending (i.heard f) (λ gone.
          elim (dec_lt f s.delay) [
            | yes early ↦ i.early_theirs f early
            | no late ↦ absurd (arrived (omega arith) gone)
          ]) in
        let moved : em.core (
              present
                (em.rt.set_input (em.rt.set_input s.machine s.local_port lin) s.remote_port rin))
            ≡ turn em.step port (em.core s.machine) lin rin =
          ap
            (λ q.
              em.core
                (present (em.rt.set_input (em.rt.set_input s.machine q lin) s.remote_port rin)))
            i.side
          ∙ ap (λ q. em.core (present (em.rt.set_input (em.rt.set_input s.machine port lin) q rin)))
              i.other
          ∙ pads port s.machine lin rin i.two in
        (
          record {
            two = i.two;
            side = i.side;
            other = i.other;
            now =
                moved
                ∙ ap (λ x. turn em.step port x lin rin) i.now
                ∙ ap (λ x. turn em.step port (replay em.step port c mine theirs f) x rin) own
                ∙ ap (λ x. turn em.step port (replay em.step port c mine theirs f) (mine f) x) his
                ∙ sym (replay_next em.step port c mine theirs f);
            own = i.own;
            heard = i.heard;
            early_mine = i.early_mine;
            early_theirs = i.early_theirs;
            kept = λ k from late under.
                let u : k < f + 1 + s.delay = under in
                i.kept k (omega arith) late (omega (arith, u));
          },
          refl,
        )

    check_frame-Played :
        (sends : RpResult) (f : ℕ) (s : NetSession S)
        → Played f s
        → Goes (Played f) Cut (check_frame em.rt present sends s)
    unfolding check_frame
    check_frame-Played sends f s h =
        let size = em.rt.serialize_size s.machine in
        if-Goes (not (s.frame % checksum_every == 0)) (λ t. goes _ h)
          (λ t.
            if-Goes (not (size == 0) && not (is_ok (em.rt.save_state s.machine size).0))
              (λ t'. goes _ h)
              (λ t'. if-Goes (is_ok sends) (λ t''. goes _ h) (λ t''. stops _ refl)))

    compare_crcs-Played :
        (own : List (ℕ × ℕ)) (f : ℕ) (s : NetSession S)
        → Played f s
        → Goes (Played f) Cut (compare_crcs own s)
    unfolding compare_crcs
    compare_crcs-Played [] f s h = goes s h
    compare_crcs-Played ((k, crc) ∷ own) f s h =
        option-Goes em port c mine theirs (find k s.peer_crc) _ _
          (λ missing. compare_crcs-Played own f s h)
          (λ peer there.
            if-Goes (peer == crc) (λ t. compare_crcs-Played own f s h) (λ t. stops _ refl))

    prune-Played : (f : ℕ) (s : NetSession S) → Played f s → Played f (prune s)
    unfolding prune
    prune-Played f s (i, at) =
        let lo = if leb 3 s.frame then s.frame - 3 else 0 in
        let below : lo ≤ f = ground (arith, at) in
        (
          record {
            two = i.two;
            side = i.side;
            other = i.other;
            now = i.now;
            own = λ k v e. i.own k v (prune_below-some lo k v s.local_pending e);
            heard = λ k v e. i.heard k v (prune_below-some lo k v s.remote_pending e);
            early_mine = i.early_mine;
            early_theirs = i.early_theirs;
            kept = λ k from late under.
                let stays : ltb k lo ≡ false = le→ltb k lo (omega (arith, below, from)) in
                find-prune_below lo k s.local_pending ∙ rw stays (i.kept k from late under);
          },
          at,
        )

    abbrev pub Done : NetSession S → NetSession S → Type 0
    Done s s' =
        (s'.status ≡ NetStatus.ok) × (s'.frame ≡ s.frame + 1) × InStep em port c mine theirs s'

    pub advance_frame-Done :
        (sends : RpResult) (s : NetSession S)
        → FollowsTo em port c mine theirs (s.frame + s.delay + 1) s
        → (s.delay ≤ s.frame → find s.frame s.remote_pending ≢ none)
        → s.frame + 1 < 2 ^ 64
        → Goes (Done s) Cut (advance_frame em.rt present sends s)
    unfolding advance_frame
    advance_frame-Done sends s i arrived small =
        Goes-bind
          (Goes-bind
            (check_frame-Played sends s.frame (play em.rt present s) (play-Played s i arrived))
            (λ s1 h1. compare_crcs-Played (entries s1.own_crc) s.frame s1 h1))
          (λ s2 h2.
            let (j, at) = prune-Played s.frame s2 h2 in
            let counted : add_u64 s2.frame 1 ≡ s.frame + 1 = omega (arith, h2.1, small) in
            goes _ (
              refl,
              counted,
              subst
                  (λ n.
                    Follows em port c mine theirs (prune s2).machine (prune s2).local_port
                      (prune s2).remote_port (prune s2).delay n (n + (prune s2).delay)
                      (prune s2).local_pending (prune s2).remote_pending)
                  (sym counted) j,
            ))
