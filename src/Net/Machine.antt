-- ===== src/Net/Machine.antt =====
-- What a netplay session asks of the runtime: the `rp_runtime_*` calls of
-- include/retropark/retropark.h. `S` is the runtime with the core that it runs.
use retro_park.Base.{ℕ, ◌≤◌, ◌<◌, ◌≡◌, List, ◌==◌, if◌then◌else◌}
use retro_park.Abi.{RpResult, InputState}

pub record Machine (S : Type 0) : Type 0 where
  pub serialize_size : S → ℕ
  -- the bytes left in a buffer of the size that is passed
  pub save_state : S → ℕ → RpResult × List ℕ
  pub load_state : S → List ℕ → RpResult × S
  pub set_input : S → ℕ → InputState → S
  pub advance : S → ℕ → RpResult × S
  pub render : S → S

-- A driven core behind the calls, which serves the ports 0 and 1: it moves by `step` on the inputs of its two ports, and a saved
-- state brings it back whole. `core` and `input` are what the session can know of the runtime.
pub record Emulates {S C : Type 0} (m : Machine S) (core : S → C) (input : S → ℕ → InputState)
    (step : C → InputState → InputState → C) (image : C → List ℕ) : Type 0 where
  pub sizes : (s : S) → 0 < m.serialize_size s
  pub saves : (s : S) → m.save_state s (m.serialize_size s) ≡ (RpResult.ok, image (core s))
  pub loads : (s : S) (c : C) → (m.load_state s (image c)).0 ≡ RpResult.ok
  pub loads_core : (s : S) (c : C) → core (m.load_state s (image c)).1 ≡ c
  pub sets_core : (s : S) (p : ℕ) (v : InputState) → core (m.set_input s p v) ≡ core s
  pub sets_input :
      (s : S) (p q : ℕ) (v : InputState)
      → p ≤ 1
      → q ≤ 1
      → input (m.set_input s p v) q ≡ (if p == q then v else input s q)
  pub advances : (s : S) (e : ℕ) → (m.advance s e).0 ≡ RpResult.ok
  pub advances_core :
      (s : S) (e : ℕ) → core (m.advance s e).1 ≡ step (core s) (input s 0) (input s 1)
  pub renders_core : (s : S) → core (m.render s) ≡ core s

-- A runtime with the game that it plays.
pub record Emulation (S C : Type 0) : Type 0 where
  pub rt : Machine S
  pub core : S → C
  pub input : S → ℕ → InputState
  pub step : C → InputState → InputState → C
  pub image : C → List ℕ
  pub laws : Emulates rt core input step image
