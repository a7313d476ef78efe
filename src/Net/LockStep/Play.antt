-- ===== src/Net/LockStep/Play.antt =====
-- A tick of the lockstep session of src/net/NetSession.cpp, as a whole.
use retro_park.Base.{
  ◌≡◌, ◌≢◌, ◌⊎◌, refl, sym, ap, ◌∙◌, subst, ℕ, ◌+◌, ◌^◌, ◌≤◌, ◌<◌, true, false, none, List, leb,
  if◌then◌else◌, arith, Bool-cases, inl, inr,
}
use retro_park.Base.Map.{find}
use retro_park.Abi.{RpResult, InputState}
use retro_park.Net.Machine.{Emulation}
use retro_park.Net.LockStep.{
  NetSession, NetStatus, Flow, next, ◌>>=◌, finish, is_disconnected, tick_send, await,
  advance_frame, tick_recv_and_advance,
}
use retro_park.Net.LockStep.Follow.{
  Goes, goes, stops, Goes-bind, if-Goes, is_cut, AllFair, FollowsTo, InStep, Took,
  tick_send-Follows, await-Heard,
}
use retro_park.Net.LockStep.Frame.{advance_frame-Done}

module _ {S C : Type 0} (em : Emulation S C) (port : ℕ) (c : C) (mine theirs : ℕ → InputState) where
  -- How a tick ends: the frame is played, or it waits with nothing played, or the session is cut off.
  pub data Ends (s s' : NetSession S) : Type 0 where
    plays :
        s'.status ≡ NetStatus.ok
        → s'.frame ≡ s.frame + 1
        → InStep em port c mine theirs s'
        → Ends s s'
    waits :
        s'.status ≡ NetStatus.waiting
        → s'.frame ≡ s.frame
        → s'.machine ≡ s.machine
        → InStep em port c mine theirs s'
        → Ends s s'
    is_cut_off : is_cut s'.status ≡ true → Ends s s'

module _ {S C : Type 0} (em : Emulation S C) (present : S → S)
    (presents : (s : S)
      → em.core (present s) ≡ em.step (em.core s) (em.input s 0) (em.input s 1)) where
  module _ (port : ℕ) (c : C) (mine theirs : ℕ → InputState) where
    Goes-mono :
        {P P' Q Q' : NetSession S → Type 0} {m : Flow S}
        → Goes P Q m
        → ((s : NetSession S) → P s → P' s)
        → ((s : NetSession S) → Q s → Q' s)
        → Goes P' Q' m
    Goes-mono (goes s h) f g = goes s (f s h)
    Goes-mono (stops s h) f g = stops s (g s h)

    finish-Ends :
        (s : NetSession S) (m : Flow S)
        → Goes (Ends em port c mine theirs s) (Ends em port c mine theirs s) m
        → Ends em port c mine theirs s (finish m)
    finish-Ends s m (goes x h) = h
    finish-Ends s m (stops x h) = h

    disconnected-Cut : (status : NetStatus) → is_disconnected status ≡ true → is_cut status ≡ true
    disconnected-Cut NetStatus.disconnected h = refl
    disconnected-Cut NetStatus.ok h = cc h
    disconnected-Cut NetStatus.waiting h = cc h
    disconnected-Cut NetStatus.desync h = refl

    -- Nothing more is owed than between two ticks.
    Took-waits :
        (s s' : NetSession S)
        → Took em port c mine theirs (s.frame + s.delay + 1) s s'
        → (s'.status ≡ NetStatus.waiting) ⊎ (is_cut s'.status ≡ true)
        → Ends em port c mine theirs s s'
    Took-waits s s' (i, f, m, d) (inr cut) = is_cut_off cut
    Took-waits s s' (i, f, m, d) (inl w) = waits w f m (record {
      two = i.two;
      side = i.side;
      other = i.other;
      now = i.now;
      own = i.own;
      heard = i.heard;
      early_mine = i.early_mine;
      early_theirs = i.early_theirs;
      kept = λ k from late under. i.kept k from late (omega (arith, f, d, under));
    })

    -- With the input of the other side in, or not owed
    Took-plays :
        (sends : RpResult) (s s' : NetSession S)
        → Took em port c mine theirs (s.frame + s.delay + 1) s s'
        → (s'.delay ≤ s'.frame → find s'.frame s'.remote_pending ≢ none)
        → s.frame + 1 < 2 ^ 64
        → Goes
            (Ends em port c mine theirs s)
            (Ends em port c mine theirs s)
            (advance_frame em.rt present sends s')
    Took-plays sends s s' (i, f, m, d) arrived small =
        let b : s.frame + s.delay + 1 ≡ s'.frame + s'.delay + 1 = omega (arith, f, d) in
        Goes-mono
          (advance_frame-Done em present presents port c mine theirs sends s'
            (subst (λ n. FollowsTo em port c mine theirs n s') b i) arrived
            (omega (arith, f, small)))
          (λ x (ok, counted, j). plays ok (counted ∙ ap (λ n. n + 1) f) j) (λ x cut. is_cut_off cut)

    later-Took :
        (b : ℕ) (s s0 x : NetSession S)
        → Took em port c mine theirs b s s0
        → Took em port c mine theirs b s0 x
        → Took em port c mine theirs b s x
    later-Took b s s0 x (i, f, m, d) (j, f', m', d') = (j, f' ∙ f, m' ∙ m, d' ∙ d)

    -- A tick of one side of a lockstep session that is in step with the game, whose own pad plays `mine`
    -- and to which the transport brings what the other side plays, in any order and with anything in
    -- between. Either it ends Ok, has played the next frame with the two inputs that belong to it, and
    -- is in step again; or it ends Waiting, with the machine and the frame as they were, and in step;
    -- or it ends Desync or Disconnected.
    pub tick-Ends :
        (local_now : InputState) (sends sends_crc : RpResult) (polls : List (RpResult × List ℕ))
        (s : NetSession S)
        → InStep em port c mine theirs s
        → mine (s.frame + s.delay) ≡ local_now
        → AllFair theirs polls
        → s.frame + s.delay + 1 < 2 ^ 64
        → is_disconnected s.status ≡ false
        → Ends em port c mine theirs s
            (tick_recv_and_advance em.rt present polls sends_crc (tick_send local_now sends s))
    unfolding tick_recv_and_advance
    tick-Ends local_now sends sends_crc polls s i says fair small up =
        let s0 = tick_send local_now sends s in
        let b = s.frame + s.delay + 1 in
        let took : Took em port c mine theirs b s s0 =
          tick_send-Follows em port c mine theirs local_now sends s i says (omega arith) up in
        elim (Bool-cases (is_disconnected s0.status)) [
          | inl down ↦
              subst
                (λ t. Ends em port c mine theirs s (
                  if t
                  then s0
                  else finish (
                      (if leb s0.delay s0.frame then await polls s0 else next s0) >>= λ s'.
                      advance_frame em.rt present sends_crc s')))
                (sym down) (is_cut_off (disconnected-Cut s0.status down))
          | inr on ↦
              subst
                (λ t. Ends em port c mine theirs s (
                  if t
                  then s0
                  else finish (
                      (if leb s0.delay s0.frame then await polls s0 else next s0) >>= λ s'.
                      advance_frame em.rt present sends_crc s')))
                (sym on)
                (finish-Ends s _ (
                  Goes-bind
                    {P = λ x.
                      Took em port c mine theirs b s x
                      × (x.delay ≤ x.frame → find x.frame x.remote_pending ≢ none)}
                    (if-Goes (leb s0.delay s0.frame)
                      (λ owed.
                        Goes-mono (await-Heard em port c mine theirs polls b s0 took.0 fair)
                          (λ x (t, here). (later-Took b s s0 x took t, λ h. here))
                          (λ x (t, ends). Took-waits s x (later-Took b s s0 x took t) ends))
                      (λ early. goes s0 (took, λ h. absurd (ground (arith, h, early)))))
                    (λ x (t, arrived). Took-plays sends_crc s x t arrived (omega arith))))
        ]
