-- ===== src/Net/Rollback/Replay.antt =====
-- The specification of a rollback session: a game played from its first state by two streams of
-- inputs, frame by frame, with no prediction.
use retro_park.Base.{ℕ, zero, suc, ◌+◌, ◌<◌, ◌≡◌, refl, arith, ◌==◌, if◌then◌else◌}
use retro_park.Abi.{InputState}

module _ {C : Type 0} (step : C → InputState → InputState → C) where
  -- One frame, seen from the side whose pad is at `port`
  abbrev pub turn : ℕ → C → InputState → InputState → C
  turn port c mine theirs = if port == 0 then step c mine theirs else step c theirs mine

  -- The state before frame `n`
  pub replay : ℕ → C → (ℕ → InputState) → (ℕ → InputState) → ℕ → C
  replay port c mine theirs zero = c
  replay port c mine theirs (suc n) = turn port (replay port c mine theirs n) (mine n) (theirs n)

  -- Only the inputs of earlier frames count.
  pub replay_ext :
      (port : ℕ) (c : C) (mine mine' theirs theirs' : ℕ → InputState) (n : ℕ)
      → ((k : ℕ) → k < n → mine k ≡ mine' k)
      → ((k : ℕ) → k < n → theirs k ≡ theirs' k)
      → replay port c mine theirs n ≡ replay port c mine' theirs' n
  unfolding replay
  replay_ext port c mine mine' theirs theirs' zero h h' = refl
  replay_ext port c mine mine' theirs theirs' (suc n) h h' = ground (
    arith,
    h n (omega arith),
    h' n (omega arith),
    replay_ext port c mine mine' theirs theirs' n (λ k lt. h k (omega arith))
        (λ k lt. h' k (omega arith)),
  )

  pub replay_next :
      (port : ℕ) (c : C) (mine theirs : ℕ → InputState) (n : ℕ)
      → replay port c mine theirs (n + 1)
        ≡ turn port (replay port c mine theirs n) (mine n) (theirs n)
  unfolding replay
  replay_next port c mine theirs n = let e : n + 1 ≡ suc n = omega arith in rw e

  -- The two sides of a game see one state: what is mine on one side is theirs on the other.
  pub replay_mirror :
      (c : C) (host join : ℕ → InputState) (n : ℕ) → replay 0 c host join n ≡ replay 1 c join host n
  unfolding replay
  replay_mirror c host join zero = refl
  replay_mirror c host join (suc n) = ground (arith, replay_mirror c host join n)

  pub replay_start :
      (port : ℕ) (c : C) (mine theirs : ℕ → InputState) → replay port c mine theirs 0 ≡ c
  unfolding replay
  replay_start port c mine theirs = refl
