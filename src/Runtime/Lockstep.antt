-- ===== src/Runtime/Lockstep.antt =====
-- The lockstep session of src/net/NetSession.cpp on a runtime of src/runtime/Runtime.cpp that is not
-- paused and has a driven core that can be saved: each frame is played by `rp_runtime_present`.
use retro_park.Base.{◌≡◌, ℕ, ◌+◌, ◌^◌, ◌<◌, false, List}
use retro_park.Abi.{RpResult, InputState}
use retro_park.Loader.CoreLoader.{CoreAbi}
use retro_park.Net.LockStep.{NetSession, is_disconnected, tick_send, tick_recv_and_advance}
use retro_park.Net.LockStep.Follow.{is_cut, AllFair, InStep}
use retro_park.Net.LockStep.Play.{Ends, tick-Ends}
use retro_park.Net.LockStep.Agreement.{Turn, run, IsFair, runs_agree}
use retro_park.Runtime.State.{Runtime, Platform, AvInfo, SurfaceSet}
use retro_park.Runtime.Frame.Plays.{Saved}
use retro_park.Runtime.Machine.{Observed}
use retro_park.Runtime.Unpaused.{Unpaused, unpaused, game, show, look-show}

module _ {K B Au : Type 0} (p : Platform K B Au) (abi : CoreAbi K SurfaceSet AvInfo) (c : Saved abi)
    (clock : Runtime K B Au → ℕ) (o : Observed p abi c) where
  -- A tick of one side of a lockstep session on an unpaused runtime that is in step with the game, whose
  -- own pad plays `mine` and to which the transport brings what the other side plays, in any order and
  -- with anything in between. Either it ends Ok, has played the next frame with the two inputs that
  -- belong to it, and is in step again; or it ends Waiting, with the machine and the frame as they were,
  -- and in step; or it ends Desync or Disconnected. The core's saved part decides how the part goes on,
  -- the frame counter does not overflow, and the session was not disconnected before.
  pub runtime_tick-Ends :
      (port : ℕ) (start : o.C) (mine theirs : ℕ → InputState) (local_now : InputState)
      (sends sends_crc : RpResult) (polls : List (RpResult × List ℕ))
      (s : NetSession (Unpaused K B Au abi))
      → InStep (game p abi c clock o) port start mine theirs s
      → mine (s.frame + s.delay) ≡ local_now
      → AllFair theirs polls
      → s.frame + s.delay + 1 < 2 ^ 64
      → is_disconnected s.status ≡ false
      → Ends (game p abi c clock o) port start mine theirs s (
          tick_recv_and_advance
            (unpaused p abi c clock)
            (show p abi c clock)
            polls
            sends_crc
            (tick_send local_now sends s))
  runtime_tick-Ends =
      tick-Ends (game p abi c clock o) (show p abi c clock) (look-show p abi c clock o)

  -- Two sides of a lockstep session on unpaused runtimes that are in step with one game, in which what
  -- is mine on one side is theirs on the other, tick on, each as often as it likes and until it is told
  -- Desync or Disconnected. Each plays its own inputs, the same again where a frame waits, and is
  -- brought no inputs but those of the other side. If both are up and at the same frame then, the saved
  -- parts of their cores are the same. The frame counters do not overflow.
  pub states_agree :
      (start : o.C) (host join : ℕ → InputState) (h j : NetSession (Unpaused K B Au abi))
      (host_turns join_turns : List Turn)
      → InStep (game p abi c clock o) 0 start host join h
      → InStep (game p abi c clock o) 1 start join host j
      → IsFair (unpaused p abi c clock) (show p abi c clock) host join host_turns h
      → IsFair (unpaused p abi c clock) (show p abi c clock) join host join_turns j
      → is_cut (run (unpaused p abi c clock) (show p abi c clock) host_turns h).status ≡ false
      → is_cut (run (unpaused p abi c clock) (show p abi c clock) join_turns j).status ≡ false
      → (run (unpaused p abi c clock) (show p abi c clock) host_turns h).frame
        ≡ (run (unpaused p abi c clock) (show p abi c clock) join_turns j).frame
      → o.look (run (unpaused p abi c clock) (show p abi c clock) host_turns h).machine.k
        ≡ o.look (run (unpaused p abi c clock) (show p abi c clock) join_turns j).machine.k
  states_agree start host join h j host_turns join_turns ih ij fh fj =
      runs_agree (game p abi c clock o) (show p abi c clock) (look-show p abi c clock o) start host
        join h j host_turns join_turns ih ij fh fj
