-- ===== src/Render/FramebufferCopy/Bounds.antt =====
-- What the check of src/render/FramebufferCopy.cpp on a driven frame lets through.
use retro_park.Base.{ℕ, suc, ◌+◌, ◌*◌, ◌%◌, ◌^◌, ◌≤◌, ◌<◌, ◌≡◌, ◌↔◌, true, arith}
use native.Mathlib.Nat.{mul-le-mul_right, suc-mul}
use retro_park.Render.FramebufferCopy.{row_bytes, driven_frame_valid}

-- A frame whose width is below 2^30 passes the check exactly if it is not empty, its rows of four bytes
-- for a pixel fit into the pitch, and it is within the declared maximum.
driven_frame_valid_iff :
    (width height pitch max_width max_height : ℕ)
    → width < 2 ^ 30
    → (driven_frame_valid width height pitch max_width max_height ≡ true) ↔ (
        (0 < width)
        × (0 < height)
        × (width * 4 ≤ pitch)
        × (width ≤ max_width)
        × (height ≤ max_height))
unfolding driven_frame_valid
driven_frame_valid_iff width height pitch max_width max_height small =
    let exact : width * 4 % 2 ^ 32 ≡ width * 4 = omega arith in ground (arith, exact)

-- Each row that is copied out of a frame that passes the check lies within the `pitch * height` bytes
-- of the frame.
driven_frame_valid-row :
    (width height pitch max_width max_height y : ℕ)
    → driven_frame_valid width height pitch max_width max_height ≡ true
    → y < height
    → y * pitch + row_bytes width ≤ height * pitch
unfolding driven_frame_valid
driven_frame_valid-row width height pitch max_width max_height y valid below =
    let fits : row_bytes width ≤ pitch = ground (arith, valid) in
    let rows : suc y * pitch ≤ height * pitch = mul-le-mul_right pitch (omega arith) in
    omega (arith, rows, fits, suc-mul y pitch)
