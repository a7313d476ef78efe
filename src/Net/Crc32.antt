-- ===== src/Net/Crc32.antt =====
-- src/net/Crc32.h: the reflected CRC-32 by a table of 256 words.
use Prim.Native.Nat.{bit_and, bit_xor}
use retro_park.Base.{
  ℕ, zero, suc, ◌+◌, ◌/◌, ◌^◌, ◌≡◌, refl, List, [], ◌∷◌, get_or, ◌==◌, if◌then◌else◌,
}
pub mod Shifts
mod Tests

-- `c = (c & 1) ? (0xEDB88320u ^ (c >> 1)) : (c >> 1)`
pub crc_round : ℕ → ℕ
crc_round c = if bit_and c 1 == 1 then bit_xor 0xEDB88320 (c / 2) else c / 2

-- `for (int k = 0; k < 8; ++k)`, with the rounds left
pub crc_rounds : ℕ → ℕ → ℕ
crc_rounds zero c = c
crc_rounds (suc k) c = crc_rounds k (crc_round c)

-- `for (uint32_t i = 0; i < 256; ++i)`, with the rounds left
pub crc_table_from : ℕ → ℕ → List ℕ
unfolding crc_rounds crc_round
crc_table_from zero i = []
crc_table_from (suc n) i = crc_rounds 8 i ∷ crc_table_from n (i + 1)

pub crc_table : List ℕ
unfolding crc_table_from
crc_table = crc_table_from 256 0

pub crc_bytes : List ℕ → ℕ → ℕ
crc_bytes [] crc = crc
crc_bytes (b ∷ bytes) crc =
    crc_bytes bytes (bit_xor (get_or crc_table (bit_and (bit_xor crc b) 0xFF) 0) (crc / 2 ^ 8))

pub crc32 : List ℕ → ℕ
unfolding crc_bytes crc_table
crc32 bytes = bit_xor (crc_bytes bytes 0xFFFFFFFF) 0xFFFFFFFF
