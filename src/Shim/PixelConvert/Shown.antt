-- ===== src/Shim/PixelConvert/Shown.antt =====
-- cores/libretro_shim/PixelConvert.cpp: every pixel of a frame as libretro.h describes its format.
use retro_park.Base.{
  ℕ, zero, suc, ◌+◌, ◌*◌, ◌/◌, ◌%◌, ◌^◌, ◌≤◌, ◌<◌, ◌≡◌, ◌∙◌, inr, sym, ap, subst, some, List, [],
  ◌∷◌, length, get_elem?, get_or, All, ◌==◌, if◌then◌else◌, arith,
}
use retro_park.Base.Bits.{bit_or_above}
use retro_park.Abi.{IsByte}
use retro_park.Shim.PixelConvert.{
  e5, e6, word16, word32, from_xrgb8888, from_rgb565, from_0rgb1555, convert_pixel, convert_rows,
  convert_to_rgba8,
}
use retro_park.Shim.PixelConvert.Places.{convert_rows-inside, convert_rows-outside}

-- A field of 5 or of 6 bits, with its upper bits again below it
abbrev pub wide5 : ℕ → ℕ
wide5 v = v * 8 + v / 4

abbrev pub wide6 : ℕ → ℕ
wide6 v = v * 4 + v / 16

-- What the pixel whose bytes start at `at` is as red, green, blue and alpha. XRGB8888 (1) has its bytes in
-- the order blue, green, red. RGB565 (2) and 0RGB1555 (0) have two bytes, the lower one first, with blue
-- in the lowest five bits, and green across both bytes.
abbrev pub from_bytes : ℕ → List ℕ → ℕ → List ℕ
from_bytes (suc zero) src at =
    get_or src (at + 2) 0 ∷ get_or src (at + 1) 0 ∷ get_or src at 0 ∷ 255 ∷ []
from_bytes (suc (suc zero)) src at =
    let lo = get_or src at 0 in
    let hi = get_or src (at + 1) 0 in
    wide5 (hi / 8) ∷ wide6 (hi % 8 * 8 + lo / 32) ∷ wide5 (lo % 32) ∷ 255 ∷ []
from_bytes zero src at =
    let lo = get_or src at 0 in
    let hi = get_or src (at + 1) 0 in
    wide5 (hi / 4 % 32) ∷ wide5 (hi % 4 * 8 + lo / 32) ∷ wide5 (lo % 32) ∷ 255 ∷ []
from_bytes _ src at = 0 ∷ 0 ∷ 0 ∷ 255 ∷ []

-- Bytes for a pixel of a format
abbrev pub bytes_of : ℕ → ℕ
bytes_of fmt = if fmt == 1 then 4 else 2

e5-wide : (v : ℕ) → v < 32 → e5 v ≡ wide5 v
unfolding e5
e5-wide v h = omega (arith, bit_or_above 3 (v / 2 ^ 2) v (omega arith))

e6-wide : (v : ℕ) → v < 64 → e6 v ≡ wide6 v
unfolding e6
e6-wide v h = omega (arith, bit_or_above 2 (v / 2 ^ 4) v (omega arith))

get_or-IsByte : (src : List ℕ) (i : ℕ) → All IsByte src → get_or src i 0 < 256
get_or-IsByte [] i h = omega arith
get_or-IsByte (b ∷ src) zero h = h.0
get_or-IsByte (b ∷ src) (suc i) h = get_or-IsByte src i h.1

list4 :
    {r g b r' g' b' a : ℕ}
    → r ≡ r'
    → g ≡ g'
    → b ≡ b'
    → ◌≡◌ {A = List ℕ} (r ∷ g ∷ b ∷ a ∷ []) (r' ∷ g' ∷ b' ∷ a ∷ [])
list4 p q s = cc (p, q, s)

module _ (src : List ℕ) (row x : ℕ) (bytes : All IsByte src) where
  convert_pixel-bytes :
      (fmt : ℕ) → convert_pixel fmt src row x ≡ from_bytes fmt src (row + x * bytes_of fmt)
  unfolding convert_pixel word16 word32 from_xrgb8888 from_rgb565 from_0rgb1555
  convert_pixel-bytes zero =
      let lo = get_or src (row + x * 2) 0 in
      let hi = get_or src (row + x * 2 + 1) 0 in
      let l : lo < 256 = get_or-IsByte src (row + x * 2) bytes in
      let h : hi < 256 = get_or-IsByte src (row + x * 2 + 1) bytes in
      let p = lo + hi * 2 ^ 8 in
      list4 (e5-wide (p / 2 ^ 10 % 2 ^ 5) (omega arith) ∙ ap wide5 (omega (arith, l, h)))
        (e5-wide (p / 2 ^ 5 % 2 ^ 5) (omega arith) ∙ ap wide5 (omega (arith, l, h)))
        (e5-wide (p % 2 ^ 5) (omega arith) ∙ ap wide5 (omega (arith, l, h)))
  convert_pixel-bytes (suc zero) =
      let b0 = get_or-IsByte src (row + x * 4) bytes in
      let b1 = get_or-IsByte src (row + x * 4 + 1) bytes in
      let b2 = get_or-IsByte src (row + x * 4 + 2) bytes in
      list4 (omega (arith, b0, b1, b2)) (omega (arith, b0, b1)) (omega (arith, b0))
  convert_pixel-bytes (suc (suc zero)) =
      let lo = get_or src (row + x * 2) 0 in
      let hi = get_or src (row + x * 2 + 1) 0 in
      let l : lo < 256 = get_or-IsByte src (row + x * 2) bytes in
      let h : hi < 256 = get_or-IsByte src (row + x * 2 + 1) bytes in
      let p = lo + hi * 2 ^ 8 in
      list4 (e5-wide (p / 2 ^ 11 % 2 ^ 5) (omega arith) ∙ ap wide5 (omega (arith, l, h)))
        (e6-wide (p / 2 ^ 5 % 2 ^ 6) (omega arith) ∙ ap wide6 (omega (arith, l, h)))
        (e5-wide (p % 2 ^ 5) (omega arith) ∙ ap wide5 (omega (arith, l, h)))
  convert_pixel-bytes (suc (suc (suc n))) = ground arith

-- The four bytes at the place of column k in row j of `dst` are afterwards the red, green, blue and alpha
-- of the pixel that stands there in `src`, whose rows are `pitch` apart, and what lies past the rows of
-- the frame is left. The frame has at most 2 ^ 30 columns and fits into `dst`.
pub convert_to_rgba8-pixel :
    (src dst : List ℕ) (w h pitch fmt j k c i : ℕ)
    → All IsByte src
    → w ≤ 2 ^ 30
    → h * w * 4 ≤ length dst
    → length dst < 2 ^ 64
    → j < h
    → k < w
    → c < 4
    → (get_elem? (convert_to_rgba8 src w h pitch fmt dst) (j * w * 4 + k * 4 + c)
        ≡ some (get_or (from_bytes fmt src (j * pitch + k * bytes_of fmt)) c 0))
      × (get_elem? (convert_to_rgba8 src w h pitch fmt dst) (h * w * 4 + i)
          ≡ get_elem? dst (h * w * 4 + i))
unfolding convert_to_rgba8
convert_to_rgba8-pixel src dst w h pitch fmt j k c i bytes narrow room small hj hk hc =
    let top : 0 + j ≡ j = omega arith in
    let all : 0 + h ≡ h = omega arith in
    let room' : (0 + h) * w * 4 ≤ length dst = subst (λ t. t * w * 4 ≤ length dst) (sym all) room in
    (
      ap (λ t. get_elem? (convert_rows h 0 w pitch fmt src dst) (t * w * 4 + k * 4 + c)) (sym top)
          ∙ convert_rows-inside fmt src w pitch narrow h 0 dst j k c room' small hj hk hc
          ∙ ap (λ t. some (get_or (convert_pixel fmt src (t * pitch) k) c 0)) top
          ∙ ap (λ p. some (get_or p c 0)) (convert_pixel-bytes src (j * pitch) k bytes fmt),
      convert_rows-outside fmt src w pitch narrow h 0 dst (h * w * 4 + i) room' small
          (inr (subst (λ t. t * w * 4 ≤ h * w * 4 + i) (sym all) (omega arith))),
    )
