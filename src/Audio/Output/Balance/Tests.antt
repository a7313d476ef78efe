-- ===== src/Audio/Output/Balance/Tests.antt =====
-- An output of two channels, with an empty pool and with one buffer queued.
use retro_park.Base.{refl, true, false, some, [], ◌∷◌, arith, replicate}
use retro_park.Audio.Output.{Output, submit, on_buffer_end}
use retro_park.Audio.Output.Balance.{
  IsBalanced, backlog, submit-IsBalanced, on_buffer_end-IsBalanced,
}

abbrev quiet : Output
quiet = record {
  has_source = true;
  channels = 2;
  bufs = replicate 16 [];
  in_use = replicate 16 false;
  target_frames = 1920;
  queued_frames = 0;
  min_queued = 4294967295;
  starvations = 0;
  started = false;
}

quiet-IsBalanced : IsBalanced quiet
unfolding backlog
quiet-IsBalanced = record { flags = refl; buffers = refl; sound = omega arith; queued = refl }

abbrev playing : Output
playing = record quiet {
  bufs = (1 ∷ 2 ∷ 3 ∷ 4 ∷ []) ∷ replicate 15 [];
  in_use = true ∷ replicate 15 false;
  queued_frames = 2;
}

playing-IsBalanced : IsBalanced playing
unfolding backlog
playing-IsBalanced = record { flags = refl; buffers = refl; sound = omega arith; queued = refl }

submit-IsBalanced_example : IsBalanced (submit true (some (1 ∷ 2 ∷ 3 ∷ 4 ∷ [])) 2 quiet)
submit-IsBalanced_example =
    submit-IsBalanced true (1 ∷ 2 ∷ 3 ∷ 4 ∷ []) 2 quiet quiet-IsBalanced refl (omega arith)

on_buffer_end-IsBalanced_example : IsBalanced (on_buffer_end 0 playing)
on_buffer_end-IsBalanced_example =
    on_buffer_end-IsBalanced 0 playing playing-IsBalanced refl (omega arith)
