-- ===== src/Shim/PixelConvert/Colours.antt =====
-- cores/libretro_shim/PixelConvert.cpp: what the conversion keeps of a colour.
use retro_park.Base.{ℕ, ◌+◌, ◌*◌, ◌/◌, ◌%◌, ◌^◌, ◌<◌, ◌≡◌, List, get_or, arith}
use retro_park.Base.Bits.{bit_or_above}
use retro_park.Shim.PixelConvert.{e5, e6, from_rgb565}

e5-top : (v : ℕ) → v < 2 ^ 5 → e5 v / 2 ^ 3 ≡ v
unfolding e5
e5-top v h = omega (arith, bit_or_above 3 (v / 2 ^ 2) v (omega arith))

e6-top : (v : ℕ) → v < 2 ^ 6 → e6 v / 2 ^ 2 ≡ v
unfolding e6
e6-top v h = omega (arith, bit_or_above 2 (v / 2 ^ 4) v (omega arith))

-- `p` put together again from the upper bits of three bytes
abbrev pub to_rgb565 : List ℕ → ℕ
to_rgb565 c = get_or c 0 0 / 2 ^ 3 * 2 ^ 11 + get_or c 1 0 / 2 ^ 2 * 2 ^ 5 + get_or c 2 0 / 2 ^ 3

-- A 16-bit RGB565 pixel is read back from the upper bits of the three bytes it is converted to.
pub from_rgb565-kept : (p : ℕ) → p < 2 ^ 16 → to_rgb565 (from_rgb565 p) ≡ p
unfolding from_rgb565
from_rgb565-kept p h = omega (
  arith,
  e5-top (p / 2 ^ 11 % 2 ^ 5) (omega arith),
  e6-top (p / 2 ^ 5 % 2 ^ 6) (omega arith),
  e5-top (p % 2 ^ 5) (omega arith),
)
