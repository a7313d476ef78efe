-- ===== src/Net/LockStep/Agreement.antt =====
-- Two sides of one lockstep game (src/net/NetSession.cpp), each through any ticks of its own.
use retro_park.Base.{
  ◌≡◌, refl, sym, ap, ◌∙◌, ℕ, ◌+◌, ◌^◌, ◌<◌, true, false, List, [], ◌∷◌, if◌then◌else◌, Bool-cases,
  inl, inr,
}
use retro_park.Abi.{RpResult, InputState}
use retro_park.Net.Machine.{Machine, Emulation}
use retro_park.Net.Rollback.Replay.{replay, replay_mirror}
use retro_park.Net.LockStep.{
  NetSession, NetStatus, is_disconnected, tick_send, tick_recv_and_advance,
}
use retro_park.Net.LockStep.Follow.{is_cut, AllFair, InStep}
use retro_park.Net.LockStep.Play.{plays, waits, is_cut_off, tick-Ends}

-- A frame of a frontend: what its pad says, what the transport answers to the input and to the checksum,
-- and what it brings
pub record Turn : Type 0 where
  pub local_now : InputState
  pub sends : RpResult
  pub sends_crc : RpResult
  pub polls : List (RpResult × List ℕ)

pub tick_once : {S : Type 0} → Machine S → (S → S) → Turn → NetSession S → NetSession S
unfolding tick_recv_and_advance tick_send
tick_once rt present t s =
    tick_recv_and_advance rt present t.polls t.sends_crc (tick_send t.local_now t.sends s)

-- The ticks of a frontend, which ends a session that says Desync or Disconnected
unfoldable pub run : {S : Type 0} → Machine S → (S → S) → List Turn → NetSession S → NetSession S
unfolding tick_once
run rt present [] s = s
run rt present (t ∷ turns) s =
    if is_cut s.status then s else run rt present turns (tick_once rt present t s)

run-cut :
    {S : Type 0} (rt : Machine S) (present : S → S) (turns : List Turn) (s : NetSession S)
    → is_cut s.status ≡ true
    → run rt present turns s ≡ s
unfolding run
run-cut rt present [] s h = refl
run-cut rt present (t ∷ turns) s h = rw h refl

stays_up : (status : NetStatus) → is_cut status ≡ false → is_disconnected status ≡ false
stays_up NetStatus.disconnected h = cc h
stays_up NetStatus.ok h = refl
stays_up NetStatus.waiting h = refl
stays_up NetStatus.desync h = refl

-- Each tick plays `mine`, also where it repeats a frame that waits, and hears nothing but `theirs`.
abbrev pub IsFair :
    {S : Type 0}
    → Machine S
    → (S → S)
    → (ℕ → InputState)
    → (ℕ → InputState)
    → List Turn
    → NetSession S
    → Type 0
IsFair rt present mine theirs [] s = Unit {0}
IsFair rt present mine theirs (t ∷ turns) s =
    (mine (s.frame + s.delay) ≡ t.local_now)
    × AllFair theirs t.polls
    × (s.frame + s.delay + 1 < 2 ^ 64)
    × IsFair rt present mine theirs turns (tick_once rt present t s)

module _ {S C : Type 0} (em : Emulation S C) (present : S → S)
    (presents : (s : S)
      → em.core (present s) ≡ em.step (em.core s) (em.input s 0) (em.input s 1)) where
  -- A session that is not cut off is in step with its game after any ticks.
  pub run-InStep :
      (port : ℕ) (c : C) (mine theirs : ℕ → InputState) (turns : List Turn) (s : NetSession S)
      → InStep em port c mine theirs s
      → IsFair em.rt present mine theirs turns s
      → is_cut (run em.rt present turns s).status ≡ false
      → InStep em port c mine theirs (run em.rt present turns s)
  unfolding run tick_once
  run-InStep port c mine theirs [] s i h up = i
  run-InStep port c mine theirs (t ∷ turns) s i (says, fair, small, h) up =
      elim (Bool-cases (is_cut s.status)) [
        | inl cut ↦ rw cut i
        | inr on ↦
            let s' = tick_once em.rt present t s in
            let up' : is_cut (run em.rt present turns s').status ≡ false = rw on at up in
            rw on
              (elim (tick-Ends em present presents port c mine theirs t.local_now t.sends
                t.sends_crc t.polls s i says fair small (stays_up s.status on)) [
                  | plays ok counted j ↦ run-InStep port c mine theirs turns s' j h up'
                  | waits w same left j ↦ run-InStep port c mine theirs turns s' j h up'
                  | is_cut_off cut ↦
                      let ended : is_cut (run em.rt present turns s').status ≡ true =
                        ap (λ x. is_cut x.status) (run-cut em.rt present turns s' cut) ∙ cut in
                      cc (ended, up')
                ])
      ]

  module _ (c : C) (host join : ℕ → InputState) (h j : NetSession S) (host_turns : List Turn)
      (join_turns : List Turn) (host_starts : InStep em 0 c host join h)
      (join_starts : InStep em 1 c join host j)
      (host_fair : IsFair em.rt present host join host_turns h)
      (join_fair : IsFair em.rt present join host join_turns j) where
    -- After any ticks of their own two sides that are at the same frame, and not cut off, hold the same
    -- state of the core.
    pub runs_agree :
        is_cut (run em.rt present host_turns h).status ≡ false
        → is_cut (run em.rt present join_turns j).status ≡ false
        → (run em.rt present host_turns h).frame ≡ (run em.rt present join_turns j).frame
        → em.core (run em.rt present host_turns h).machine
          ≡ em.core (run em.rt present join_turns j).machine
    runs_agree host_up join_up same =
        let ih = run-InStep 0 c host join host_turns h host_starts host_fair host_up in
        let ij = run-InStep 1 c join host join_turns j join_starts join_fair join_up in
        ih.now
        ∙ replay_mirror em.step c host join (run em.rt present host_turns h).frame
        ∙ ap (λ n. replay em.step 1 c join host n) same
        ∙ sym ij.now
