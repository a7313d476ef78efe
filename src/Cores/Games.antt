-- ===== src/Cores/Games.antt =====
-- The reference cores behind a runtime, as games that a netplay session plays.
use retro_park.Base.{ℕ, ◌+◌, refl, arith}
use retro_park.Abi.{InputState}
use retro_park.Net.Machine.{Emulates}
use retro_park.Runtime.State.{Runtime, Platform}
use retro_park.Runtime.Frame.Plays.{Saved}
use retro_park.Runtime.Machine.{Observed, machine, input_of, machine-Emulates}
use retro_park.Cores.Word.{Word, word, word_bytes, read_word-word_bytes}
use retro_park.Cores.Rollback.{
  RollbackCore, rc_run_frame, rc_serialize, rc_unserialize, rc_step, rc_abi, with_rc,
}
use retro_park.Cores.Driven.{
  DrivenCore, dc_run_frame, dc_serialize, dc_unserialize, dc_abi, with_dc,
}

abbrev pub rc_saved : Saved rc_abi
rc_saved = record {
  size = 4;
  run = rc_run_frame;
  save = rc_serialize;
  restore = rc_unserialize;
  image = λ c. word_bytes c.acc;
  size_pos = omega arith;
  image_pos = λ c. omega arith;
  runs = refl;
  sizes = refl;
  has_save = refl;
  saves = λ c. refl;
  has_restore = refl;
}

abbrev pub dc_saved : Saved dc_abi
dc_saved = record {
  size = 4;
  run = dc_run_frame;
  save = dc_serialize;
  restore = dc_unserialize;
  image = λ c. word_bytes c.frame;
  size_pos = omega arith;
  image_pos = λ c. omega arith;
  runs = refl;
  sizes = refl;
  has_save = refl;
  saves = λ c. refl;
  has_restore = refl;
}

-- One frame of each game
abbrev pub rc_next : Word → InputState → InputState → Word
rc_next acc v w = word (acc.0 + rc_step v)

abbrev pub dc_next : Word → InputState → InputState → Word
dc_next frame v w = word (frame.0 + 1)

module _ {B Au : Type 0} where
  -- What of the cores is saved: their counters
  unfoldable pub rc_observed :
      (p : Platform RollbackCore B Au) → Observed (with_rc p) rc_abi rc_saved
  unfolding rc_run_frame
  rc_observed p = record {
    C = Word;
    look = λ c. c.acc;
    next = rc_next;
    picture = word_bytes;
    picture_pos = λ x. omega arith;
    pictures = λ c. refl;
    restores = λ c x. (refl, read_word-word_bytes x);
    steps = λ c v w. refl;
  }

  dc_observed : (p : Platform DrivenCore B Au) → Observed (with_dc p) dc_abi dc_saved
  unfolding dc_run_frame
  dc_observed p = record {
    C = Word;
    look = λ c. c.frame;
    next = dc_next;
    picture = word_bytes;
    picture_pos = λ x. omega arith;
    pictures = λ c. refl;
    restores = λ c x. (refl, read_word-word_bytes x);
    steps = λ c v w. refl;
  }

  -- Both reference cores, behind a runtime on any backend and audio output, are games that a netplay
  -- session can play: their counter moves by one frame with each `advance`, by the input of the first
  -- player in the one and by 1 in the other, and the four bytes that are saved bring it back.
  pub reference_cores-Emulate :
      (p : Platform RollbackCore B Au) (q : Platform DrivenCore B Au)
      (clock : Runtime RollbackCore B Au → ℕ) (clock' : Runtime DrivenCore B Au → ℕ)
      → Emulates
          (machine (with_rc p) rc_abi rc_saved clock)
          (λ s. s.k.acc)
          (input_of (with_rc p) rc_abi rc_saved clock)
          rc_next
          word_bytes
        × Emulates
            (machine (with_dc q) dc_abi dc_saved clock')
            (λ s. s.k.frame)
            (input_of (with_dc q) dc_abi dc_saved clock')
            dc_next
            word_bytes
  unfolding rc_observed dc_observed
  reference_cores-Emulate p q clock clock' = (
    machine-Emulates (with_rc p) rc_abi rc_saved clock (rc_observed p),
    machine-Emulates (with_dc q) dc_abi dc_saved clock' (dc_observed q),
  )
