-- ===== src/Render/FramebufferCopy.antt =====
-- src/render/FramebufferCopy.cpp: the copy of a frame between two buffers whose rows may be padded, and
-- the check on a frame that a driven core hands over. Sizes of `uint32_t` wrap.
pub mod Bounds
pub mod PutRow
pub mod Copied
mod Tests
use retro_park.Base.{
  ℕ, zero, suc, ◌+◌, ◌*◌, ◌%◌, ◌^◌, Bool, true, false, ◌||◌, List, ◌++◌, take, drop, ltb, ◌==◌,
  if◌then◌else◌,
}

-- `width * 4u`
abbrev pub row_bytes : ℕ → ℕ
row_bytes width = width * 4 % 2 ^ 32

-- `memcpy(dst + at, src + from, n)`
abbrev pub put_row : List ℕ → ℕ → List ℕ → ℕ → ℕ → List ℕ
put_row dst at src from n = take at dst ++ take n (drop from src) ++ drop (at + n) dst

-- The loop over `y`, with the rounds left first
pub copy_rows : ℕ → ℕ → List ℕ → ℕ → ℕ → List ℕ → ℕ → List ℕ
copy_rows zero y src n src_pitch dst dst_pitch = dst
copy_rows (suc rounds) y src n src_pitch dst dst_pitch =
    copy_rows rounds (y + 1) src n src_pitch (put_row dst (y * dst_pitch) src (y * src_pitch) n)
      dst_pitch

pub copy_rgba8_rows : List ℕ → ℕ → ℕ → ℕ → List ℕ → ℕ → List ℕ
unfolding copy_rows
copy_rgba8_rows src width height src_pitch dst dst_pitch =
    if width == 0 || height == 0
    then dst
    else copy_rows height 0 src (row_bytes width) src_pitch dst dst_pitch

pub driven_frame_valid : ℕ → ℕ → ℕ → ℕ → ℕ → Bool
driven_frame_valid width height pitch max_width max_height =
    if width == 0 || height == 0
    then false
    else if ltb pitch (row_bytes width)
    then false
    else if ltb max_width width || ltb max_height height
    then false
    else true
