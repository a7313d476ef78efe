-- ===== src/Net/Crc32/Tests.antt =====
-- A message of src/net/Crc32.h.
use retro_park.Base.{ℕ, ◌≡◌, refl, List, [], ◌∷◌, arith}
use retro_park.Net.Crc32.{crc32}
use retro_park.Net.Crc32.Shifts.{crc32_of_bits, crc32-crc32_of_bits}

abbrev message : List ℕ
message = 0x52 ∷ 0xFF ∷ 0 ∷ []

crc32-crc32_of_bits_example : crc32 message ≡ crc32_of_bits message
crc32-crc32_of_bits_example =
    crc32-crc32_of_bits message (omega arith, (omega arith, (omega arith, tt)))

-- The check value of CRC-32, of the text "123456789"
crc32_check : crc32 (b'1' ∷ b'2' ∷ b'3' ∷ b'4' ∷ b'5' ∷ b'6' ∷ b'7' ∷ b'8' ∷ b'9' ∷ []) ≡ 0xCBF43926
unfolding crc32
crc32_check = refl
