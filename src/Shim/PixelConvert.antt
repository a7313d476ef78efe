-- ===== src/Shim/PixelConvert.antt =====
-- cores/libretro_shim/PixelConvert.cpp: a frame of a libretro core as tight RGBA8. Offsets
-- wrap as in the source; what is written past the end of `dst`, which callers never do, is dropped.
pub mod Puts
pub mod Places
pub mod Shown
pub mod Colours
mod Tests
use Prim.Native.Nat.{bit_or}
use retro_park.Base.{
  ℕ, zero, suc, ◌+◌, ◌*◌, ◌/◌, ◌%◌, ◌^◌, List, [], ◌∷◌, set, get_or, ◌==◌, if◌then◌else◌,
}

-- `(uint8_t)((v << 3) | (v >> 2))`
pub e5 : ℕ → ℕ
e5 v = bit_or (v / 2 ^ 2) (v * 2 ^ 3) % 2 ^ 8

-- `(uint8_t)((v << 2) | (v >> 4))`
pub e6 : ℕ → ℕ
e6 v = bit_or (v / 2 ^ 4) (v * 2 ^ 2) % 2 ^ 8

-- The words of a row that starts at `row`, on a little-endian machine
pub word16 : List ℕ → ℕ → ℕ → ℕ
word16 src row x = get_or src (row + x * 2) 0 + get_or src (row + x * 2 + 1) 0 * 2 ^ 8

pub word32 : List ℕ → ℕ → ℕ → ℕ
word32 src row x =
    get_or src (row + x * 4) 0
    + get_or src (row + x * 4 + 1) 0 * 2 ^ 8
    + get_or src (row + x * 4 + 2) 0 * 2 ^ 16
    + get_or src (row + x * 4 + 3) 0 * 2 ^ 24

abbrev pub rgba : ℕ → ℕ → ℕ → List ℕ
rgba r g b = r ∷ g ∷ b ∷ 255 ∷ []

pub from_xrgb8888 : ℕ → List ℕ
from_xrgb8888 p = rgba (p / 2 ^ 16 % 2 ^ 8) (p / 2 ^ 8 % 2 ^ 8) (p % 2 ^ 8)

pub from_rgb565 : ℕ → List ℕ
unfolding e5 e6
from_rgb565 p = rgba (e5 (p / 2 ^ 11 % 2 ^ 5)) (e6 (p / 2 ^ 5 % 2 ^ 6)) (e5 (p % 2 ^ 5))

pub from_0rgb1555 : ℕ → List ℕ
unfolding e5
from_0rgb1555 p = rgba (e5 (p / 2 ^ 10 % 2 ^ 5)) (e5 (p / 2 ^ 5 % 2 ^ 5)) (e5 (p % 2 ^ 5))

-- The body of the inner loop; `fmt` is a RETRO_PIXEL_FORMAT_ number of libretro.h
pub convert_pixel : ℕ → List ℕ → ℕ → ℕ → List ℕ
unfolding word16 word32 from_xrgb8888 from_rgb565 from_0rgb1555
convert_pixel fmt src row x =
    if fmt == 1
    then from_xrgb8888 (word32 src row x)
    else if fmt == 2
    then from_rgb565 (word16 src row x)
    else if fmt == 0
    then from_0rgb1555 (word16 src row x)
    else rgba 0 0 0

-- `out[x*4+0]=r; out[x*4+1]=g; out[x*4+2]=b; out[x*4+3]=255;`, with the index as a `uint32_t`
pub put_pixel : List ℕ → ℕ → ℕ → List ℕ → List ℕ
put_pixel dst out x colour =
    let d0 = set dst (out + x * 4 % 2 ^ 32) (get_or colour 0 0) in
    let d1 = set d0 (out + (x * 4 + 1) % 2 ^ 32) (get_or colour 1 0) in
    let d2 = set d1 (out + (x * 4 + 2) % 2 ^ 32) (get_or colour 2 0) in
    set d2 (out + (x * 4 + 3) % 2 ^ 32) (get_or colour 3 0)

-- The loop over `x`, with the rounds left first
pub convert_row : ℕ → ℕ → ℕ → List ℕ → ℕ → List ℕ → ℕ → List ℕ
unfolding convert_pixel put_pixel
convert_row zero x fmt src row dst out = dst
convert_row (suc rounds) x fmt src row dst out =
    convert_row rounds (x + 1) fmt src row (put_pixel dst out x (convert_pixel fmt src row x)) out

-- The loop over `y`
pub convert_rows : ℕ → ℕ → ℕ → ℕ → ℕ → List ℕ → List ℕ → List ℕ
unfolding convert_row
convert_rows zero y w pitch fmt src dst = dst
convert_rows (suc rounds) y w pitch fmt src dst =
    convert_rows rounds (y + 1) w pitch fmt src
      (convert_row w 0 fmt src (y * pitch) dst (y * w * 4 % 2 ^ 64))

-- `dst` before and after
pub convert_to_rgba8 : List ℕ → ℕ → ℕ → ℕ → ℕ → List ℕ → List ℕ
unfolding convert_rows
convert_to_rgba8 src w h src_pitch fmt dst = convert_rows h 0 w src_pitch fmt src dst
