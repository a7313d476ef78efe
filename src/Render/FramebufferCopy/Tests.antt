-- ===== src/Render/FramebufferCopy/Tests.antt =====
-- A frame of one pixel by two, in rows of six bytes, copied into rows of five.
use retro_park.Base.{ℕ, ◌≡◌, refl, true, List, [], ◌∷◌, get_elem?, arith}
use retro_park.Render.FramebufferCopy.{copy_rgba8_rows, driven_frame_valid}
use retro_park.Render.FramebufferCopy.Copied.{copy_rgba8_rows-byte}

abbrev frame : List ℕ
frame = 1 ∷ 2 ∷ 3 ∷ 4 ∷ 90 ∷ 91 ∷ 5 ∷ 6 ∷ 7 ∷ 8 ∷ 92 ∷ 93 ∷ []

abbrev buffer : List ℕ
buffer = 10 ∷ 11 ∷ 12 ∷ 13 ∷ 14 ∷ 15 ∷ 16 ∷ 17 ∷ 18 ∷ 19 ∷ []

frame-valid : driven_frame_valid 1 2 6 640 480 ≡ true
unfolding driven_frame_valid
frame-valid = refl

copied : copy_rgba8_rows frame 1 2 6 buffer 5 ≡ 1 ∷ 2 ∷ 3 ∷ 4 ∷ 14 ∷ 5 ∷ 6 ∷ 7 ∷ 8 ∷ 19 ∷ []
unfolding copy_rgba8_rows
copied = refl

-- The last byte of the second row
copy_rgba8_rows-byte_example :
    get_elem? (copy_rgba8_rows frame 1 2 6 buffer 5) 8 ≡ get_elem? frame 9
copy_rgba8_rows-byte_example =
    copy_rgba8_rows-byte frame buffer 1 2 6 5 640 480 1 3 (omega arith) frame-valid (omega arith)
      (omega arith) (omega arith) (omega arith) (omega arith)
