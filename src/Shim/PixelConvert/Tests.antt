-- ===== src/Shim/PixelConvert/Tests.antt =====
-- A frame of two rows of two RGB565 pixels, each row padded to six bytes, into a buffer with room left.
use retro_park.Base.{
  ℕ, ◌+◌, ◌*◌, ◌≡◌, some, List, [], ◌∷◌, ◌++◌, get_elem?, get_or, replicate, refl, arith,
}
use retro_park.Shim.PixelConvert.{convert_to_rgba8}
use retro_park.Shim.PixelConvert.Shown.{from_bytes, convert_to_rgba8-pixel}

abbrev padded : List ℕ
padded = 0 ∷ 0 ∷ 255 ∷ 255 ∷ 9 ∷ 9 ∷ 0 ∷ 248 ∷ 31 ∷ 0 ∷ 9 ∷ 9 ∷ []

abbrev buffer : List ℕ
buffer = replicate 18 7

converted :
    convert_to_rgba8 padded 2 2 6 2 buffer
    ≡ (0 ∷ 0 ∷ 0 ∷ 255 ∷ 255 ∷ 255 ∷ 255 ∷ 255 ∷ [])
      ++ (255 ∷ 0 ∷ 0 ∷ 255 ∷ 0 ∷ 0 ∷ 255 ∷ 255 ∷ 7 ∷ 7 ∷ [])
unfolding convert_to_rgba8
converted = refl

-- The red of the first pixel in the second row
convert_to_rgba8-pixel_example :
    (get_elem? (convert_to_rgba8 padded 2 2 6 2 buffer) (1 * 2 * 4 + 0 * 4 + 0)
      ≡ some (get_or (from_bytes 2 padded (1 * 6 + 0 * 2)) 0 0))
    × (get_elem? (convert_to_rgba8 padded 2 2 6 2 buffer) (2 * 2 * 4 + 1)
        ≡ get_elem? buffer (2 * 2 * 4 + 1))
convert_to_rgba8-pixel_example =
    convert_to_rgba8-pixel padded buffer 2 2 6 2 1 0 0 1 (omega arith) (omega arith) (omega arith)
      (omega arith) (omega arith) (omega arith) (omega arith)

red : from_bytes 2 padded 6 ≡ 255 ∷ 0 ∷ 0 ∷ 255 ∷ []
red = refl
